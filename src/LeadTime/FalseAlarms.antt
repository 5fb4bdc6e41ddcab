-- ===== src/LeadTime/FalseAlarms.antt =====
-- `compute_false_alarms`, `compute_lead_times` and `cumulative_detection_curve` of
-- forecasting/evaluation/lead_time.py.
pub mod Counts
use turbo_sh.Common.{
  ℕ, zero, suc, ◌+◌, ◌-◌, ◌*◌, ◌==◌, List, [], ◌∷◌, map, Bool, true, false, not, ◌&&◌, ◌||◌, Option,
  none, some, ℤ, pos, if◌then◌else◌, leb, ltb, leb_ℤ, ltb_ℤ, eqb_ℤ, length, filter, max, Float,
}
use turbo_sh.Config.{stage_count}
use turbo_sh.LeadTime.{
  StageArray, t1, LeadTimeConfig, AttackEpisode, DetectionResult, detect_episodes,
  evaluate_detections,
}

-- `int(np.sum(mask))`
abbrev pub count_true : List Bool → ℕ
count_true [] = 0
count_true (b ∷ bs) = if b then suc (count_true bs) else count_true bs

-- `i in valid_indices`: between the first correct prediction of a detection and its onset.
unfoldable pub is_valid : List DetectionResult → ℕ → Bool
is_valid [] i = false
is_valid (d ∷ ds) i =
    (d.detected && (leb_ℤ d.first_correct_idx (pos i) && ltb i d.episode.onset_idx))
    || is_valid ds i

-- The loop that fills `false_alarm_mask`, from index `i`; `none` is the `IndexError` for more
-- predictions than true stages.
unfoldable pub alarm_mask :
    ℤ → List DetectionResult → ℕ → (t1_true t1_pred : List ℤ) → Option (List Bool)
unfolding is_valid
alarm_mask threshold ds i truths [] = some []
alarm_mask threshold ds i [] (p ∷ preds) = none
alarm_mask threshold ds i (t ∷ truths) (p ∷ preds) =
    elim (alarm_mask threshold ds (suc i) truths preds) [
      | none ↦ none
      | some mask ↦ some ((ltb_ℤ t threshold && (leb_ℤ threshold p && not (is_valid ds i))) ∷ mask)
    ]

-- `int(np.sum(false_alarm_mask & (t1_pred == stage)))`
unfoldable pub alarms_of : ℤ → List Bool → List ℤ → ℕ
alarms_of stage [] preds = 0
alarms_of stage (b ∷ mask) [] = 0
alarms_of stage (b ∷ mask) (p ∷ preds) =
    (if b && eqb_ℤ p stage then 1 else 0) + alarms_of stage mask preds

-- `for stage in range(stage, stage + n)`, the stages at or above the threshold
unfoldable pub by_stage : ℤ → ℕ → ℕ → List Bool → List ℤ → List (ℕ × ℕ)
unfolding alarms_of
by_stage threshold zero stage mask preds = []
by_stage threshold (suc n) stage mask preds =
    let rest = by_stage threshold n (suc stage) mask preds in
    if leb_ℤ threshold (pos stage) then (stage, alarms_of (pos stage) mask preds) ∷ rest else rest

pub record FalseAlarmMetrics {ℓ} (F : Type ℓ) : Type ℓ where
  pub total_non_attack_windows : ℕ
  pub false_alarms : ℕ
  pub false_alarm_rate : F
  pub false_alarm_by_stage : List (ℕ × ℕ)

module _ {ℓ} {F : Type ℓ} ⦃f : Float F⦄ where
  abbrev metrics_of : ℤ → ℕ → List ℤ → List Bool → FalseAlarmMetrics F
  metrics_of threshold total preds mask = record {
    total_non_attack_windows = total;
    false_alarms = count_true mask;
    false_alarm_rate = f.div (f.of_nat (count_true mask)) (f.of_nat total);
    false_alarm_by_stage = by_stage threshold stage_count 0 mask preds;
  }

  -- `valid_detections=None` is the empty list: no index is valid then.
  unfoldable pub compute_false_alarms :
      LeadTimeConfig F
      → StageArray
      → StageArray
      → List DetectionResult
      → Option (FalseAlarmMetrics F)
  compute_false_alarms config true_stages pred_stages ds =
      let threshold = config.surge_threshold in
      let total = length (filter (λ t. ltb_ℤ t threshold) (t1 true_stages)) in
      if total == 0
      then some (record {
        total_non_attack_windows = 0;
        false_alarms = 0;
        false_alarm_rate = f.of_nat 0;
        false_alarm_by_stage = [];
      })
      else elim (alarm_mask threshold ds 0 (t1 true_stages) (t1 pred_stages)) [
        | none ↦ none
        | some mask ↦ some (metrics_of threshold total (t1 pred_stages) mask)
      ]

pub record LeadTimeResults {ℓ} (F : Type ℓ) : Type ℓ where
  pub episodes : List AttackEpisode
  pub detections : List DetectionResult
  pub false_alarms : FalseAlarmMetrics F
  pub mean_lead_time_steps : F
  pub mean_lead_time_seconds : F
  pub median_lead_time_steps : F
  pub detection_coverage : F
  pub total_episodes : ℕ
  pub detected_episodes : ℕ

-- `[d.lead_time_steps for d in detections if d.detected]`
unfoldable pub detected_leads : List DetectionResult → List ℕ
detected_leads ds = map (λ d. d.lead_time_steps) (filter (λ d. d.detected) ds)

-- NumPy's mean, median and maximum, and Python's `round`, are parameters.
module _ {ℓ} {F : Type ℓ} ⦃f : Float F⦄ (np_max : List F → Option F)
    (np_mean np_median : List ℕ → F) (round : F → ℕ → F) where
  -- `float(g(leads)) if leads else 0.0`
  abbrev or_zero : (List ℕ → F) → List ℕ → F
  or_zero g [] = f.of_nat 0
  or_zero g (x ∷ xs) = g (x ∷ xs)

  unfoldable pub summarise :
      LeadTimeConfig F
      → List AttackEpisode
      → List DetectionResult
      → FalseAlarmMetrics F
      → LeadTimeResults F
  unfolding detected_leads
  summarise config episodes detections alarms =
      let leads = detected_leads detections in
      let total = length episodes in
      let mean = or_zero np_mean leads in
      record {
        episodes = episodes;
        detections = detections;
        false_alarms = alarms;
        mean_lead_time_steps = round mean 2;
        mean_lead_time_seconds = round (f.mul mean (f.of_nat config.step_seconds)) 1;
        median_lead_time_steps = round (or_zero np_median leads) 2;
        detection_coverage =
            round
              (if ltb 0 total then f.div (f.of_nat (length leads)) (f.of_nat total) else f.of_nat 0)
              4;
        total_episodes = total;
        detected_episodes = length leads;
      }

  unfoldable pub compute_lead_times :
      LeadTimeConfig F
      → StageArray
      → StageArray
      → Option (List (List F))
      → Option (LeadTimeResults F)
  unfolding summarise
  compute_lead_times config true_stages pred_stages proba =
      let episodes = detect_episodes config true_stages in
      elim (evaluate_detections np_max config true_stages pred_stages proba) [
        | none ↦ none
        | some detections ↦ elim (compute_false_alarms config true_stages pred_stages detections) [
          | none ↦ none
          | some alarms ↦ some (summarise config episodes detections alarms)
        ]
      ]

-- `sum(1 for lt in lead_times if lt >= l)`
abbrev pub count_from : ℕ → List ℕ → ℕ
count_from l leads = length (filter (λ lt. leb l lt) leads)

abbrev pub maximum : ℕ → List ℕ → ℕ
maximum m [] = m
maximum m (x ∷ xs) = maximum (max m x) xs

-- `for l in np.arange(l, l + n)`
unfoldable pub curve_from {ℓ} : {F : Type ℓ} ⦃f : Float F⦄ → ℕ → ℕ → List ℕ → List (ℕ × F)
curve_from zero l leads = []
curve_from ⦃f⦄ (suc n) l leads =
    (l, f.div (f.of_nat (count_from l leads)) (f.of_nat (length leads)))
    ∷ curve_from n (suc l) leads

unfoldable pub cumulative_detection_curve {ℓ} : {F : Type ℓ} ⦃f : Float F⦄ → List ℕ → List (ℕ × F)
unfolding curve_from
cumulative_detection_curve ⦃f⦄ [] = (0, f.of_nat 0) ∷ []
cumulative_detection_curve (x ∷ xs) = curve_from (suc (maximum x xs)) 0 (x ∷ xs)
