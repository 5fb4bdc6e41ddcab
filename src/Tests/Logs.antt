-- ===== src/Tests/Logs.antt =====
-- Requests of one IP, with an idle gap of 100 s.
use turbo_sh.Common.{
  ℕ, ◌≡◌, refl, pos, String, List, [], ◌∷◌, Option, none, some, Millionths, millionths, arith,
  if◌then◌else◌, str_eq,
}
use turbo_sh.Features.{
  LogEntry, value, window_eval_times, eval_times, next_end, first_after, has_reqs,
}
use turbo_sh.Features.Coverage.{IsCover, window_eval_times-IsCover}
use turbo_sh.NetworkState.{Datetime}
use turbo_sh.Tests.{hundredths, utc}

abbrev later_requests : List ℕ
later_requests = 5 ∷ 40 ∷ 140 ∷ []

window_eval_times-requests : window_eval_times 60 30 1 later_requests ≡ some (31 ∷ 61 ∷ 170 ∷ [])
unfolding window_eval_times eval_times next_end first_after has_reqs
window_eval_times-requests = refl

window_eval_times-IsCover_example :
    (ends : List ℕ) × (window_eval_times 60 30 1 later_requests ≡ some ends)
    × IsCover 60 (1 ∷ later_requests) (λ t. Unit {0}) ends
window_eval_times-IsCover_example =
    window_eval_times-IsCover 60 30 1 later_requests (omega arith) (omega arith)
      (omega arith, (omega arith, (omega arith, tt)))

abbrev entry_at : String → LogEntry Millionths
entry_at time = record {
  ip_hash = some "a";
  timestamp = value time;
  endpoint = some "/login";
  response_time = value (hundredths 4200);
  status_code = value (pos 403);
}

abbrev read_seconds : String → Option Datetime
read_seconds text = if str_eq text "t" then some (utc 12_000_000) else none

abbrev same : Millionths → Millionths
same x = x
