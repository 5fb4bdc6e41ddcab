-- ===== src/LeadTime.antt =====
-- `LeadTimeEvaluator` of forecasting/evaluation/lead_time.py: attack episodes, early detections and
-- false alarms. The arrays of stages are lists of Python integers.
pub mod Rounds
pub mod Episodes
pub mod Coverage
pub mod Searching
pub mod Warnings
pub mod FalseAlarms
pub mod Comparison
use turbo_sh.Common.{
  ℕ, zero, suc, ◌+◌, ◌-◌, ◌*◌, ◌==◌, ◌≡◌, List, [], ◌∷◌, ◌++◌, map, Bool, true, false, not, ◌&&◌,
  ◌||◌, Option, none, some, ℤ, pos, negsuc, if◌then◌else◌, leb, ltb, leb_ℤ, ltb_ℤ, eqb_ℤ, get_elem?,
  length, max, Float,
}
use turbo_sh.Config.{stage_count}

-- An array of shape `(N,)`, or one of shape `(N, horizon)` with a first column.
pub data StageArray : Type 0 where
  flat : List ℤ → StageArray
  table : List (ℤ × List ℤ) → StageArray

-- `a[:, 0] if a.ndim == 2 else a`
unfoldable pub t1 : StageArray → List ℤ
t1 (flat xs) = xs
t1 (table rows) = map (λ row. row.0) rows

-- `LeadTimeConfig`, with the fields that the computations read.
pub record LeadTimeConfig {ℓ} (F : Type ℓ) : Type ℓ where
  pub surge_threshold : ℤ
  pub min_confidence : F
  pub min_consecutive_correct : ℕ
  pub step_seconds : ℕ

pub record AttackEpisode : Type 0 where
  pub sequence_idx : ℕ
  pub onset_idx : ℕ
  pub peak_idx : ℕ
  pub resolution_idx : ℕ
  pub peak_stage : ℤ

-- Where `detect_episodes` stands: in its outer loop, or in the inner one with its variables.
pub data Scan : Type 0 where
  outside : Scan
  inside : (onset peak : ℕ) → (peak_stage : ℤ) → Scan

abbrev pub episode : ℕ → ℕ → ℕ → ℤ → AttackEpisode
episode onset peak resolution stage = record {
  sequence_idx = 0;
  onset_idx = onset;
  peak_idx = peak;
  resolution_idx = resolution;
  peak_stage = stage;
}

-- Both loops, at index `i` with the stages that are left. The inner loop stops at a stage below
-- the threshold, which the outer loop then passes over.
unfoldable pub detect : ℤ → ℕ → Scan → List ℤ → List AttackEpisode
detect threshold i outside [] = []
detect threshold i outside (x ∷ xs) =
    detect threshold (suc i) (if leb_ℤ threshold x then inside i i x else outside) xs
detect threshold i (inside onset peak stage) [] = episode onset peak (i - 1) stage ∷ []
detect threshold i (inside onset peak stage) (x ∷ xs) = elim (leb_ℤ threshold x) [
  | true ↦
      detect threshold (suc i) (if ltb_ℤ stage x then inside onset i x else inside onset peak stage)
        xs
  | false ↦ episode onset peak (i - 1) stage ∷ detect threshold (suc i) outside xs
]

unfoldable pub detect_episodes {ℓ} :
    {F : Type ℓ} → LeadTimeConfig F → StageArray → List AttackEpisode
detect_episodes config true_stages = detect config.surge_threshold 0 outside (t1 true_stages)

-- The variables of the search before an onset.
pub record Search : Type 0 where
  pub best_lead : ℕ
  pub first_correct_idx : ℤ
  pub consecutive : ℕ
  pub best_consecutive : ℕ

abbrev pub search_begin : Search
search_begin = record {
  best_lead = 0;
  first_correct_idx = negsuc 0;
  consecutive = 0;
  best_consecutive = 0;
}

-- One round of the search, at `idx`.
unfoldable pub search_step : (min_consec onset idx : ℕ) → Bool → Search → Search
search_step min_consec onset idx false s = record s { consecutive = 0 }
search_step min_consec onset idx true s =
    let streak = s.consecutive + 1 in
    if leb min_consec streak && ltb s.best_lead (onset - idx)
    then record {
      best_lead = onset - idx;
      first_correct_idx = pos idx;
      consecutive = streak;
      best_consecutive = streak;
    }
    else record s { consecutive = streak }

-- `for idx in range(next - 1, next - 1 - n, -1)`; `none` is an exception of reading the arrays.
unfoldable pub search_back :
    (ℕ → Option Bool) → (min_consec onset n next : ℕ) → Search → Option Search
search_back attack_at min_consec onset zero next s = some s
search_back attack_at min_consec onset (suc n) next s =
    let idx = next - 1 in
    elim (attack_at idx) [
      | none ↦ none
      | some attack ↦
          search_back attack_at min_consec onset n idx (search_step min_consec onset idx attack s)
    ]

pub record DetectionResult : Type 0 where
  pub episode : AttackEpisode
  pub detected : Bool
  pub lead_time_steps : ℕ
  pub lead_time_seconds : ℕ
  pub first_correct_idx : ℤ
  pub consecutive_correct : ℕ

module _ {ℓ} {F : Type ℓ} ⦃f : Float F⦄ (np_max : List F → Option F) where
  -- The row of class probabilities at an index, `pred_proba[idx, 0]` or `pred_proba[idx]`.
  abbrev pub Probabilities : Type ℓ
  Probabilities = Option (List (List F))

  -- `proba[predicted_stage]` where that is a class, else the greatest entry
  unfoldable pub stage_confidence : List F → ℤ → Option F
  stage_confidence proba (pos n) = if ltb n (length proba) then get_elem? proba n else np_max proba
  stage_confidence proba (negsuc n) = np_max proba

  unfoldable pub confident : F → Option F → Option Bool
  confident min_conf none = none
  confident min_conf (some conf) = some (not (f.lt conf min_conf))

  unfoldable pub confidence_at : F → Probabilities → ℕ → ℤ → Option Bool
  unfolding stage_confidence confident
  confidence_at min_conf none idx stage = some true
  confidence_at min_conf (some rows) idx stage = elim (get_elem? rows idx) [
    | none ↦ none
    | some proba ↦ confident min_conf (stage_confidence proba stage)
  ]

  -- `predicted_attack` at an index
  unfoldable pub predicted_attack : LeadTimeConfig F → List ℤ → Probabilities → ℕ → Option Bool
  unfolding confidence_at
  predicted_attack config t1_pred proba idx = elim (get_elem? t1_pred idx) [
    | none ↦ none
    | some stage ↦
        if leb_ℤ config.surge_threshold stage
        then confidence_at config.min_confidence proba idx stage
        else some false
  ]

  -- The search of one episode goes back 20 steps at most.
  unfoldable pub detect_early :
      LeadTimeConfig F → List ℤ → Probabilities → AttackEpisode → Option DetectionResult
  detect_early config t1_pred proba e =
      let onset = e.onset_idx in
      let search_start = max 0 (onset - 20) in
      let found =
        search_back (predicted_attack config t1_pred proba) config.min_consecutive_correct onset
          (onset - search_start) onset search_begin in
      elim found [
        | none ↦ none
        | some s ↦ some (record {
          episode = e;
          detected = ltb 0 s.best_lead;
          lead_time_steps = s.best_lead;
          lead_time_seconds = s.best_lead * config.step_seconds;
          first_correct_idx = s.first_correct_idx;
          consecutive_correct = s.best_consecutive;
        })
      ]

  unfoldable pub detect_all :
      LeadTimeConfig F → List ℤ → Probabilities → List AttackEpisode → Option (List DetectionResult)
  detect_all config t1_pred proba [] = some []
  detect_all config t1_pred proba (e ∷ es) = elim (detect_early config t1_pred proba e) [
    | none ↦ none
    | some d ↦ elim (detect_all config t1_pred proba es) [ none ↦ none | some ds ↦ some (d ∷ ds) ]
  ]

  unfoldable pub evaluate_detections :
      LeadTimeConfig F → StageArray → StageArray → Probabilities → Option (List DetectionResult)
  evaluate_detections config true_stages pred_stages proba =
      detect_all config (t1 pred_stages) proba (detect_episodes config true_stages)
