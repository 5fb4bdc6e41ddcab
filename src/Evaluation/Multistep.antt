-- ===== src/Evaluation/Multistep.antt =====
-- `evaluate_multistep` and `accuracy_vs_horizon_curve` of forecasting/evaluation/evaluator.py.
use turbo_sh.Common.{
  ℕ, zero, suc, ◌==◌, ◌&&◌, List, [], ◌∷◌, map, Option, none, some, ℤ, if◌then◌else◌, length,
  get_elem?, Float,
}
use turbo_sh.Features.{sort_by}
use turbo_sh.Evaluation.{Rounding, EvaluationMetrics, evaluate}

-- An array of stages: of one dimension, or of two with a number of columns.
pub data StepArray : Type 0 where
  vector : List ℤ → StepArray
  matrix : ℕ → List (List ℤ) → StepArray

-- `arr[:, h].tolist()`
abbrev pub column : ℕ → List (List ℤ) → List ℤ
column h [] = []
column h (row ∷ rows) = elim (get_elem? row h) [ none ↦ column h rows | some s ↦ s ∷ column h rows ]

-- An entry of the curve, at its step.
pub record CurvePoint {ℓ} (F : Type ℓ) : Type ℓ where
  pub horizon_step : ℕ
  pub accuracy : F
  pub f1_macro : F
  pub precision_macro : F
  pub recall_macro : F

module _ {ℓ} {F : Type ℓ} ⦃f : Float F⦄ (num : Rounding F) (n_states step_seconds : ℕ) where
  -- `for h in range(h, h + n)`
  unfoldable pub evaluate_columns :
      ℕ → ℕ → List (List ℤ) → List (List ℤ) → List (ℕ × EvaluationMetrics F)
  evaluate_columns h zero trues preds = []
  evaluate_columns h (suc n) trues preds =
      (suc h, evaluate num n_states step_seconds (column h trues) (column h preds) [])
      ∷ evaluate_columns (suc h) n trues preds

  -- `none` is a `ValueError`: of arrays that have not two dimensions, or not one shape.
  unfoldable pub evaluate_multistep :
      StepArray → StepArray → Option (List (ℕ × EvaluationMetrics F))
  unfolding evaluate_columns
  evaluate_multistep (vector ts) pred_arr = none
  evaluate_multistep (matrix h trues) (vector ps) = none
  evaluate_multistep (matrix h trues) (matrix h' preds) =
      if (length trues == length preds) && (h == h')
      then some (evaluate_columns 0 h trues preds)
      else none

abbrev curve_point {ℓ} : {F : Type ℓ} → ℕ × EvaluationMetrics F → CurvePoint F
curve_point (step, m) = record {
  horizon_step = step;
  accuracy = m.accuracy;
  f1_macro = m.f1_macro;
  precision_macro = m.precision_macro;
  recall_macro = m.recall_macro;
}

unfoldable pub accuracy_vs_horizon_curve {ℓ} :
    {F : Type ℓ} → List (ℕ × EvaluationMetrics F) → List (CurvePoint F)
unfolding sort_by
accuracy_vs_horizon_curve multistep_metrics = map curve_point (sort_by (λ e. e.0) multistep_metrics)
