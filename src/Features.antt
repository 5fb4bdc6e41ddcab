-- ===== src/Features.antt =====
-- pipeline/feature_extraction/feature_extractor.py: the behavioural features of each IP, from the
-- entries of the traffic log. Times and window lengths are whole microseconds, as `datetime` and
-- `timedelta` hold them.
pub mod Windows
pub mod Coverage
pub mod Entries
pub mod Rows
use turbo_sh.Common.{
  ℕ, zero, suc, ◌+◌, ◌-◌, ◌==◌, String, List, [], ◌∷◌, ◌++◌, map, Bool, true, false, not, ◌&&◌,
  Option, none, some, ℤ, pos, negsuc, if◌then◌else◌, leb, ltb, leb_ℤ, length, filter, str_eq, Float,
  min,
}
use turbo_sh.NetworkState.{Datetime}

-- `sorted(xs, key=key)`, a stable sort
unfoldable pub insert_by {ℓ} : {A : Type ℓ} → (A → ℕ) → A → List A → List A
insert_by key x [] = x ∷ []
insert_by key x (y ∷ ys) = if leb (key x) (key y) then x ∷ y ∷ ys else y ∷ insert_by key x ys

unfoldable pub sort_by {ℓ} : {A : Type ℓ} → (A → ℕ) → List A → List A
unfolding insert_by
sort_by key [] = []
sort_by key (x ∷ xs) = insert_by key x (sort_by key xs)

-- `0 <= (w_end - ts).total_seconds() <= size`
abbrev pub in_window : ℕ → ℕ → ℕ → Bool
in_window size w_end ts = leb ts w_end && leb (w_end - ts) size

-- `any(… for ts, _ in valid_logs)`
unfoldable pub has_reqs : ℕ → ℕ → List ℕ → Bool
has_reqs size w_end [] = false
has_reqs size w_end (ts ∷ times) =
    if in_window size w_end ts then true else has_reqs size w_end times

-- `next_reqs[0]`, if there is one
unfoldable pub first_after : ℕ → List ℕ → Option ℕ
first_after curr_end [] = none
first_after curr_end (ts ∷ times) = if ltb curr_end ts then some ts else first_after curr_end times

-- The end of the next window: a step on, or past an idle gap longer than a window.
unfoldable pub next_end : (size step : ℕ) → List ℕ → ℕ → ℕ
next_end size step times curr_end = elim (first_after curr_end times) [
  | none ↦ curr_end + step
  | some next_ts ↦ if ltb size (next_ts - curr_end) then next_ts + step else curr_end + step
]

-- The `while` loop; `none` means that the fuel ran out.
unfoldable pub eval_times : (size step t_last : ℕ) → List ℕ → ℕ → ℕ → Option (List ℕ)
eval_times size step t_last times zero curr_end = none
eval_times size step t_last times (suc fuel) curr_end =
    let rest = eval_times size step t_last times fuel (next_end size step times curr_end) in
    if leb curr_end (t_last + step)
    then elim rest [
      | none ↦ none
      | some ends ↦ some (if has_reqs size curr_end times then curr_end ∷ ends else ends)
    ]
    else some []

abbrev pub last_time : ℕ → List ℕ → ℕ
last_time t [] = t
last_time t (x ∷ xs) = last_time x xs

-- `window_eval_times`, from the sorted times of an IP: the first, and the others
unfoldable pub window_eval_times : (size step : ℕ) → ℕ → List ℕ → Option (List ℕ)
window_eval_times size step t_first others =
    let t_last = last_time t_first others in
    if leb (t_last - t_first) step
    then some (t_last ∷ [])
    else eval_times size step t_last (t_first ∷ others) (t_last + 2) (t_first + step)

-- The value of a key: missing, of the type that the code expects, or another one, such as `null`.
pub data Field {ℓ} (A : Type ℓ) : Type ℓ where
  missing : Field A
  value : A → Field A
  other : Field A

-- `entry.get(key, default)`, where the code takes only a value of the type.
abbrev pub field_or {ℓ} : {A : Type ℓ} → A → Field A → Option A
field_or default missing = some default
field_or default (value a) = some a
field_or default other = none

-- An entry of the log: the keys that are read. The two that only group entries are texts or missing.
pub record LogEntry {ℓ} (F : Type ℓ) : Type ℓ where
  pub ip_hash : Option String
  pub timestamp : Field String
  pub endpoint : Option String
  pub response_time : Field F
  pub status_code : Field ℤ

pub record FeatureRow {ℓ} (F : Type ℓ) : Type ℓ where
  pub ip_hash : String
  pub requests_per_ip_10s : ℕ
  pub requests_per_ip_60s : ℕ
  pub endpoint_entropy : F
  pub latency_spike : ℕ
  pub error_rate : F
  pub request_variance : F

-- `entry.get(key, default)`
abbrev pub get_or {ℓ} : {A : Type ℓ} → A → Option A → A
get_or default none = default
get_or default (some a) = a

-- `counts[k] += 1` on a `defaultdict(int)`
unfoldable pub bump : String → List (String × ℕ) → List (String × ℕ)
bump k [] = (k, 1) ∷ []
bump k ((j, n) ∷ m) = if str_eq j k then (j, suc n) ∷ m else (j, n) ∷ bump k m

-- `groups[k].append(x)` on a `defaultdict(list)`
unfoldable pub group_append {ℓ} :
    {A : Type ℓ} → String → A → List (String × List A) → List (String × List A)
group_append k x [] = (k, x ∷ []) ∷ []
group_append k x ((j, xs) ∷ m) =
    if str_eq j k then (j, xs ++ x ∷ []) ∷ m else (j, xs) ∷ group_append k x m

abbrev pub sum : List ℕ → ℕ
sum [] = 0
sum (x ∷ xs) = x + sum xs

abbrev pub Timed {ℓ} : Type ℓ → Type ℓ
Timed F = ℕ × LogEntry F

abbrev pub ten_seconds : ℕ
ten_seconds = 10_000_000

-- `math.log2`, rounding to four places and the reading of a timestamp are parameters.
module _ {ℓ} {F : Type ℓ} ⦃f : Float F⦄ (log2 : F → F) (round4 : F → F)
    (parse_timestamp : String → Option Datetime) where
  open f use {lt, add, sub, mul, div, of_nat, ratio}

  unfoldable pub sum_floats : F → List F → F
  sum_floats acc [] = acc
  sum_floats acc (x ∷ xs) = sum_floats (add acc x) xs

  -- `max(xs)` of a list that begins with `m`
  unfoldable pub max_float : F → List F → F
  max_float m [] = m
  max_float m (x ∷ xs) = max_float (if lt m x then x else m) xs

  abbrev entropy_from : ℕ → F → List ℕ → F
  entropy_from total entropy [] = entropy
  entropy_from total entropy (count ∷ counts) =
      let p = div (of_nat count) (of_nat total) in
      entropy_from total (sub entropy (mul p (log2 p))) counts

  unfoldable pub compute_entropy : List (String × ℕ) → F
  compute_entropy counts =
      let values = map (λ e. e.1) counts in
      let total = sum values in
      let non_zero = filter (λ n. ltb 0 n) values in
      let max_entropy = log2 (of_nat (length non_zero)) in
      if leb total 1
      then of_nat 0
      else if leb (length non_zero) 1
      then of_nat 0
      else if lt (of_nat 0) max_entropy
      then div (entropy_from total (of_nat 0) non_zero) max_entropy
      else of_nat 0

  unfoldable pub compute_variance : List F → F
  unfolding sum_floats
  compute_variance values =
      let mean = div (sum_floats (of_nat 0) values) (of_nat (length values)) in
      if ltb (length values) 2
      then of_nat 0
      else div (sum_floats (of_nat 0) (map (λ x. let d = sub x mean in mul d d) values))
          (of_nat (length values - 1))

  -- The number of entries with an error; `none` is the `TypeError` of a status that is no number.
  unfoldable pub error_count : List (LogEntry F) → Option ℕ
  error_count [] = some 0
  error_count (log ∷ logs) = elim (field_or (pos 200) log.status_code) [
    | none ↦ none
    | some status ↦ elim (error_count logs) [
      | none ↦ none
      | some n ↦ some (if leb_ℤ (pos 400) status then suc n else n)
    ]
  ]

  -- The latencies; `none` is the `TypeError` of their sum, where one is no number.
  unfoldable pub latencies : List (LogEntry F) → Option (List F)
  latencies [] = some []
  latencies (log ∷ logs) = elim (field_or (of_nat 0) log.response_time) [
    | none ↦ none
    | some x ↦ elim (latencies logs) [ none ↦ none | some xs ↦ some (x ∷ xs) ]
  ]

  abbrev endpoint_counts : List (String × ℕ) → List (LogEntry F) → List (String × ℕ)
  endpoint_counts counts [] = counts
  endpoint_counts counts (log ∷ logs) = endpoint_counts (bump (get_or "/" log.endpoint) counts) logs

  -- `1 if max > base * 1.5 and max > 100.0 else 0`, of the latencies
  unfoldable pub latency_spike : Option F → List F → ℕ
  unfolding sum_floats max_float
  latency_spike baseline [] =
      let base = get_or (of_nat 0) baseline in
      if lt (mul base (ratio 15 10)) (of_nat 0) && lt (of_nat 100) (of_nat 0) then 1 else 0
  latency_spike baseline (x ∷ xs) =
      let average = div (sum_floats (of_nat 0) (x ∷ xs)) (of_nat (length (x ∷ xs))) in
      let base = get_or average baseline in
      let top = max_float x xs in
      if lt (mul base (ratio 15 10)) top && lt (of_nat 100) top then 1 else 0

  -- The row of a window: its requests, and how many of them the 10 second count has.
  abbrev pub row_of : Option F → String → ℕ → List (LogEntry F) → List F → ℕ → FeatureRow F
  row_of baseline ip_hash reqs_10s logs times errors =
      let reqs = length logs in
      record {
        ip_hash = ip_hash;
        requests_per_ip_10s = reqs_10s;
        requests_per_ip_60s = reqs;
        endpoint_entropy = round4 (compute_entropy (endpoint_counts [] logs));
        latency_spike = latency_spike baseline times;
        error_rate = if ltb 0 reqs then round4 (div (of_nat errors) (of_nat reqs)) else of_nat 0;
        request_variance = round4 (compute_variance times);
      }

  unfoldable pub feature_row : Option F → String → ℕ → List (LogEntry F) → Option (FeatureRow F)
  unfolding compute_entropy compute_variance latency_spike bump latencies error_count
  feature_row baseline ip_hash reqs_10s logs = elim (latencies logs) [
    | none ↦ none
    | some times ↦ elim (error_count logs) [
      | none ↦ none
      | some errors ↦ some (row_of baseline ip_hash reqs_10s logs times errors)
    ]
  ]

  -- `valid_logs.append((ts, log))`, before the others, unless the timestamp is missing or does not parse;
  -- `none` is the `AttributeError` of one that is no text.
  abbrev pub with_parsed :
      LogEntry F
      → Option Datetime
      → Option (List (Datetime × LogEntry F))
      → Option (List (Datetime × LogEntry F))
  with_parsed log none rest = rest
  with_parsed log (some ts) none = none
  with_parsed log (some ts) (some rest) = some ((ts, log) ∷ rest)

  abbrev pub with_timestamp :
      LogEntry F
      → Field String
      → Option (List (Datetime × LogEntry F))
      → Option (List (Datetime × LogEntry F))
  with_timestamp log missing rest = rest
  with_timestamp log other rest = none
  with_timestamp log (value text) rest = with_parsed log (parse_timestamp text) rest

  unfoldable pub valid_logs : List (LogEntry F) → Option (List (Datetime × LogEntry F))
  valid_logs [] = some []
  valid_logs (log ∷ logs) = with_timestamp log log.timestamp (valid_logs logs)

  -- Whether the times can be compared: all are aware of their time zone, or none is.
  abbrev pub one_zone : List (Datetime × LogEntry F) → Bool
  one_zone [] = true
  one_zone (e ∷ []) = true
  one_zone (e ∷ e' ∷ logs) =
      (if e.0.aware then e'.0.aware else not e'.0.aware) && one_zone (e' ∷ logs)

  abbrev pub timed : List (Datetime × LogEntry F) → List (Timed F)
  timed logs = map (λ e. (e.0.micros, e.1)) logs

  -- The entries of a window of that length.
  unfoldable pub window_logs : ℕ → ℕ → List (Timed F) → List (LogEntry F)
  window_logs size w_end logs = map (λ e. e.1) (filter (λ e. in_window size w_end e.0) logs)

  -- The loop over the windows; an empty window gives no row.
  unfoldable pub window_rows :
      Option F → ℕ → String → List (Timed F) → List ℕ → Option (List (FeatureRow F))
  unfolding window_logs feature_row
  window_rows baseline size ip_hash logs [] = some []
  window_rows baseline size ip_hash logs (w_end ∷ ends) =
      let rest = window_rows baseline size ip_hash logs ends in
      let w_60_logs = window_logs size w_end logs in
      let reqs_10s = length (window_logs ten_seconds w_end logs) in
      if ltb 0 (length w_60_logs)
      then elim (feature_row baseline ip_hash reqs_10s w_60_logs) [
        | none ↦ none
        | some row ↦ elim rest [ none ↦ none | some rows ↦ some (row ∷ rows) ]
      ]
      else rest

  -- The rows of one IP. Without a valid timestamp its entries count as one window.
  unfoldable pub timed_rows :
      Option F
      → (size step : ℕ) → String
      → List (LogEntry F)
      → List (Timed F)
      → Option (List (FeatureRow F))
  unfolding window_eval_times eval_times has_reqs next_end first_after window_rows
  timed_rows baseline size step ip_hash logs [] =
      elim (feature_row baseline ip_hash (min (length logs) 1) logs) [
        | none ↦ none
        | some row ↦ some (row ∷ [])
      ]
  timed_rows baseline size step ip_hash logs (first ∷ others) =
      elim (window_eval_times size step first.0 (map (λ e. e.0) others)) [
        | none ↦ none
        | some ends ↦ window_rows baseline size ip_hash (first ∷ others) ends
      ]

  -- `none` is also the `TypeError` of sorting naive and aware times together.
  unfoldable pub ip_rows :
      Option F → (size step : ℕ) → String → List (LogEntry F) → Option (List (FeatureRow F))
  unfolding valid_logs sort_by timed_rows
  ip_rows baseline size step ip_hash logs = elim (valid_logs logs) [
    | none ↦ none
    | some valid ↦
        if one_zone valid
        then timed_rows baseline size step ip_hash logs (sort_by (λ e. e.0) (timed valid))
        else none
  ]

  unfoldable pub all_rows :
      Option F → (size step : ℕ) → List (String × List (LogEntry F)) → Option (List (FeatureRow F))
  unfolding ip_rows
  all_rows baseline size step [] = some []
  all_rows baseline size step ((ip_hash, logs) ∷ groups) =
      elim (ip_rows baseline size step ip_hash logs) [
        | none ↦ none
        | some rows ↦ elim (all_rows baseline size step groups) [
          | none ↦ none
          | some rest ↦ some (rows ++ rest)
        ]
      ]

  unfoldable pub group_entries :
      List (String × List (LogEntry F)) → List (LogEntry F) → List (String × List (LogEntry F))
  unfolding group_append
  group_entries groups [] = groups
  group_entries groups (entry ∷ entries) =
      group_entries (group_append (get_or "unknown" entry.ip_hash) entry groups) entries

  -- `none` is the `ValueError` for a length or a step that is not positive, or an exception of a group.
  unfoldable pub extract_features :
      Option F → (window_size window_step : ℤ) → List (LogEntry F) → Option (List (FeatureRow F))
  unfolding all_rows group_entries
  extract_features baseline (pos (suc size)) (pos (suc step)) entries =
      all_rows baseline (suc size) (suc step) (group_entries [] entries)
  extract_features baseline _ _ entries = none
