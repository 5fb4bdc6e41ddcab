-- ===== src/Benchmark.antt =====
-- forecasting/benchmark/runner.py: the selection rule, the evaluation of a model, and the run over
-- the models. Formatted reasons are values, and what is printed is left out.
pub mod Runs
pub mod Best
pub mod Selection
use turbo_sh.Common.{
  ℕ, zero, suc, ◌==◌, String, List, [], ◌∷◌, ◌++◌, map, Bool, true, false, Option, none, some,
  if◌then◌else◌, Float,
}
use turbo_sh.Evaluation.{EvaluationMetrics, Rounding}
use turbo_sh.LeadTime.FalseAlarms.{LeadTimeResults}
use turbo_sh.Protocol.{InferenceTimingResult}

pub record SelectionRule {ℓ} (F : Type ℓ) : Type ℓ where
  pub min_f1_macro : F
  pub max_false_positive_rate : F
  pub max_inference_latency_ms : F
  pub weight_accuracy : F
  pub weight_f1 : F
  pub weight_lead_time : F
  pub weight_latency : F
  pub weight_coverage : F

-- Why a model is disqualified, with the value that misses its threshold.
pub data Reason {ℓ} (F : Type ℓ) : Type ℓ where
  low_f1 : F → Reason F
  high_fpr : F → Reason F
  high_latency : F → Reason F

pub record ModelBenchmarkResult {ℓ} (F : Type ℓ) : Type ℓ where
  pub model_name : String
  pub multistep_metrics : List (ℕ × EvaluationMetrics F)
  pub lead_time_results : Option (LeadTimeResults F)
  pub timing : Option (InferenceTimingResult F)
  pub model_size_bytes : ℕ
  pub peak_memory_mb : F
  pub passes_thresholds : Bool
  pub composite_score : F
  pub disqualification_reasons : List (Reason F)

-- What the loop of the rule finds of a model.
pub data Verdict {ℓ} (F : Type ℓ) : Type ℓ where
  disqualified : List (Reason F) → Verdict F
  qualified : F → Verdict F

-- A dictionary of results, in the order of insertion.
abbrev pub Results {ℓ} : Type ℓ → Type ℓ
Results F = List (String × ModelBenchmarkResult F)

-- `multistep_metrics[h]`; `none` is the `KeyError`.
abbrev pub metrics_at {ℓ} :
    {F : Type ℓ} → ℕ → List (ℕ × EvaluationMetrics F) → Option (EvaluationMetrics F)
metrics_at h [] = none
metrics_at h ((step, m) ∷ metrics) = if step == h then some m else metrics_at h metrics

module _ {ℓ} {F : Type ℓ} ⦃f : Float F⦄ where
  open f use {lt, add, sub, mul, div, of_nat, ratio}

  -- Python's `min(a, b)`
  abbrev pub min_of : F → F → F
  min_of a b = if lt b a then b else a

  abbrev f1_gate : SelectionRule F → F → List (Reason F)
  f1_gate rule f1 = if lt f1 rule.min_f1_macro then low_f1 f1 ∷ [] else []

  abbrev fpr_gate : SelectionRule F → Option (LeadTimeResults F) → List (Reason F)
  fpr_gate rule none = []
  fpr_gate rule (some lead) =
      let fpr = lead.false_alarms.false_alarm_rate in
      if lt rule.max_false_positive_rate fpr then high_fpr fpr ∷ [] else []

  abbrev latency_gate : SelectionRule F → Option (InferenceTimingResult F) → List (Reason F)
  latency_gate rule none = []
  latency_gate rule (some timing) =
      let lat = timing.median_ms in
      if lt rule.max_inference_latency_ms lat then high_latency lat ∷ [] else []

  -- The reasons that the three gates give.
  unfoldable pub gates :
      SelectionRule F → EvaluationMetrics F → ModelBenchmarkResult F → List (Reason F)
  gates rule m1 result =
      f1_gate rule m1.f1_macro
      ++ (fpr_gate rule result.lead_time_results ++ latency_gate rule result.timing)

  abbrev lead_secs : Option (LeadTimeResults F) → F
  lead_secs none = of_nat 0
  lead_secs (some lead) = lead.mean_lead_time_seconds

  abbrev coverage : Option (LeadTimeResults F) → F
  coverage none = of_nat 0
  coverage (some lead) = lead.detection_coverage

  abbrev latency_score : SelectionRule F → Option (InferenceTimingResult F) → F
  latency_score rule none = ratio 5 10
  latency_score rule (some timing) =
      sub (of_nat 1) (min_of (of_nat 1) (div timing.median_ms rule.max_inference_latency_ms))

  -- The composite score of a model that passes the gates.
  unfoldable pub composite : SelectionRule F → EvaluationMetrics F → ModelBenchmarkResult F → F
  composite rule m1 result =
      let lead =
        mul rule.weight_lead_time
          (min_of (of_nat 1) (div (lead_secs result.lead_time_results) (of_nat 30))) in
      add
        (add
          (add (add (mul rule.weight_accuracy m1.accuracy) (mul rule.weight_f1 m1.f1_macro)) lead)
          (mul rule.weight_latency (latency_score rule result.timing)))
        (mul rule.weight_coverage (coverage result.lead_time_results))

  abbrev pub verdict_of : List (Reason F) → F → Verdict F
  verdict_of [] score = qualified score
  verdict_of (reason ∷ reasons) score = disqualified (reason ∷ reasons)

  unfoldable pub judge : SelectionRule F → ModelBenchmarkResult F → Option (Verdict F)
  unfolding gates composite
  judge rule result = elim (metrics_at 1 result.multistep_metrics) [
    | none ↦ none
    | some m1 ↦ some (verdict_of (gates rule m1 result) (composite rule m1 result))
  ]

  -- What the loop writes into a result.
  abbrev pub recorded : Rounding F → Verdict F → ModelBenchmarkResult F → ModelBenchmarkResult F
  recorded num (disqualified reasons) result = record result {
    passes_thresholds = false;
    disqualification_reasons = reasons;
  }
  recorded num (qualified score) result = record result {
    composite_score = num.round_to 4 score;
    passes_thresholds = true;
  }

  -- `candidates[name] = composite`
  abbrev pub candidate : String → Verdict F → List (String × F) → List (String × F)
  candidate name (disqualified reasons) candidates = candidates
  candidate name (qualified score) candidates = (name, score) ∷ candidates

  -- The loop over the results: the results as it leaves them, and the candidates.
  unfoldable pub judge_all :
      Rounding F → SelectionRule F → Results F → Option (Results F × List (String × F))
  unfolding judge
  judge_all num rule [] = some ([], [])
  judge_all num rule ((name, result) ∷ results) = elim (judge rule result) [
    | none ↦ none
    | some verdict ↦ elim (judge_all num rule results) [
      | none ↦ none
      | some (judged, candidates) ↦
          some ((name, recorded num verdict result) ∷ judged, candidate name verdict candidates)
    ]
  ]

  -- `max(candidates, key=candidates.get)`: the first of the greatest.
  unfoldable pub best_from : String × F → List (String × F) → String × F
  best_from best [] = best
  best_from best (c ∷ candidates) = best_from (if lt best.1 c.1 then c else best) candidates

  abbrev pub best_of : List (String × F) → Option String
  best_of [] = none
  best_of (c ∷ candidates) = some (best_from c candidates).0

  -- The results with what the rule writes into them, and the name it selects.
  unfoldable pub apply_selection_rule :
      Rounding F → SelectionRule F → Results F → Option (Results F × Option String)
  unfolding judge_all best_from
  apply_selection_rule num rule results = elim (judge_all num rule results) [
    | none ↦ none
    | some (judged, candidates) ↦ some (judged, best_of candidates)
  ]
