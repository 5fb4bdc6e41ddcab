-- ===== src/Tests/Forecasts.antt =====
-- Stages with an attack from the third step to the fifth.
use turbo_sh.Common.{
  ℕ, suc, zero, ◌+◌, ◌≤◌, ◌<◌, ◌≡◌, refl, ℤ, pos, ◌≤ℤ◌, List, [], ◌∷◌, Bool, true, false, Option,
  none, some, get_elem?, All, length, filter, ltb_ℤ, Millionths, millionths, arith,
}
use turbo_sh.LeadTime.{
  flat, t1, LeadTimeConfig, episode, DetectionResult, detect_episodes, detect_early,
  predicted_attack, detect,
}
use turbo_sh.LeadTime.Episodes.{IsEpisode, detect_episodes-IsEpisode}
use turbo_sh.LeadTime.Coverage.{Covered, Separated, detect_episodes-Covered}
use turbo_sh.LeadTime.Warnings.{IsEarliest, detect_early-IsEarliest}
use turbo_sh.LeadTime.FalseAlarms.{FalseAlarmMetrics, compute_false_alarms}
use turbo_sh.LeadTime.FalseAlarms.Counts.{total, IsStage, compute_false_alarms-counts}
use turbo_sh.Tests.{hundredths}

abbrev config : LeadTimeConfig Millionths
config = record {
  surge_threshold = pos 3;
  min_confidence = hundredths 50;
  min_consecutive_correct = 2;
  step_seconds = 30;
}

abbrev truths : List ℤ
truths = pos 0 ∷ pos 1 ∷ pos 0 ∷ pos 3 ∷ pos 4 ∷ pos 0 ∷ pos 1 ∷ []

abbrev preds : List ℤ
preds = pos 0 ∷ pos 3 ∷ pos 4 ∷ pos 4 ∷ pos 3 ∷ pos 0 ∷ pos 3 ∷ []

detect_episodes-truths : detect_episodes config (flat truths) ≡ episode 3 4 4 (pos 4) ∷ []
unfolding detect_episodes detect t1
detect_episodes-truths = refl

detect_episodes-IsEpisode_example :
    All (IsEpisode (t1 (flat truths)) config.surge_threshold) (detect_episodes config (flat truths))
detect_episodes-IsEpisode_example = detect_episodes-IsEpisode config (flat truths)

detect_episodes-Covered_example :
    ((k : ℕ) (x : ℤ)
      → get_elem? (t1 (flat truths)) k ≡ some x
      → config.surge_threshold ≤ℤ x
      → Covered k (detect_episodes config (flat truths)))
    × Separated 0 (detect_episodes config (flat truths))
detect_episodes-Covered_example = detect_episodes-Covered config (flat truths)

abbrev no_max : List Millionths → Option Millionths
no_max _ = none

-- What the predictions say before the attack.
abbrev warned : ℕ → Bool
warned zero = false
warned (suc _) = true

warned-read :
    (idx : ℕ)
    → 3 ≤ idx + 20
    → idx < 3
    → predicted_attack no_max config preds none idx ≡ some (warned idx)
unfolding predicted_attack
warned-read zero lo hi = refl
warned-read (suc zero) lo hi = refl
warned-read (suc (suc zero)) lo hi = refl
warned-read (suc (suc (suc idx))) lo hi = absurd (omega arith)

detect_early-IsEarliest_example :
    (d : DetectionResult) × (detect_early no_max config preds none (episode 3 4 4 (pos 4)) ≡ some d)
    × (d.episode ≡ episode 3 4 4 (pos 4))
    × IsEarliest warned 2 30 d
detect_early-IsEarliest_example =
    detect_early-IsEarliest no_max config preds none (episode 3 4 4 (pos 4)) warned warned-read

t1-le : length (t1 (flat preds)) ≤ length (t1 (flat truths))
unfolding t1
t1-le = omega arith

t1-stages : All IsStage (t1 (flat preds))
unfolding t1
t1-stages = ground arith

compute_false_alarms-counts_example :
    (m : FalseAlarmMetrics Millionths) × (compute_false_alarms config (flat truths) (flat preds) []
      ≡ some m)
    × (m.false_alarms ≤ m.total_non_attack_windows)
    × (m.total_non_attack_windows ≡ length (filter (λ t. ltb_ℤ t (pos 3)) (t1 (flat truths))))
    × (total m.false_alarm_by_stage ≡ m.false_alarms)
compute_false_alarms-counts_example =
    compute_false_alarms-counts config (flat truths) (flat preds) [] t1-le t1-stages
