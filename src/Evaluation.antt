-- ===== src/Evaluation.antt =====
-- `ForecastEvaluator` of forecasting/evaluation/evaluator.py: the confusion matrix, the metrics by
-- stage and the lead times of forecasts. Rounding and NumPy's mean are parameters.
pub mod Confusion
pub mod Leads
pub mod Multistep
use turbo_sh.Common.{
  ℕ, zero, suc, ◌+◌, ◌-◌, ◌==◌, ◌||◌, not, String, List, [], ◌∷◌, map, filter, Bool, true, false,
  Option, none, some, ℤ, pos, if◌then◌else◌, ltb, leb_ℤ, min, max, length, get_elem?, replicate,
  Float,
}
use turbo_sh.Config.{stage_name?}
use turbo_sh.Markov.{count_pair}

-- `cm[t, p] += 1` for each sample with two valid labels
unfoldable pub confusion : ℕ → List ℤ → List ℤ → List (List ℕ) → List (List ℕ)
unfolding count_pair
confusion n [] preds cm = cm
confusion n (t ∷ truths) [] cm = cm
confusion n (t ∷ truths) (p ∷ preds) cm = confusion n truths preds (count_pair n t p cm)

-- `cm[s, p]` in a row
abbrev pub entry : List ℕ → ℕ → ℕ
entry [] p = 0
entry (c ∷ row) zero = c
entry (c ∷ row) (suc p) = entry row p

-- `np.trace`, from row `s` on
unfoldable pub trace_from : ℕ → List (List ℕ) → ℕ
trace_from s [] = 0
trace_from s (row ∷ cm) = entry row s + trace_from (suc s) cm

unfoldable pub row_sum : List ℕ → ℕ
row_sum [] = 0
row_sum (c ∷ row) = c + row_sum row

unfoldable pub col_sum : ℕ → List (List ℕ) → ℕ
col_sum s [] = 0
col_sum s (row ∷ cm) = entry row s + col_sum s cm

pub record StageMetrics {ℓ} (F : Type ℓ) : Type ℓ where
  pub stage_name : Option String
  pub precision : F
  pub recall : F
  pub f1 : F
  pub support : ℕ

pub record EvaluationMetrics {ℓ} (F : Type ℓ) : Type ℓ where
  pub accuracy : F
  pub precision_macro : F
  pub recall_macro : F
  pub f1_macro : F
  pub stage_metrics : List (StageMetrics F)
  pub confusion_matrix : List (List ℕ)
  pub mean_lead_time_steps : F
  pub mean_lead_time_seconds : F
  pub total_samples : ℕ

-- `round(x, n)`, and `np.mean` of a list that is not empty
pub record Rounding {ℓ} (F : Type ℓ) : Type ℓ where
  pub round_to : ℕ → F → F
  pub np_mean : List F → F

module _ {ℓ} {F : Type ℓ} ⦃f : Float F⦄ (num : Rounding F) where
  open f use {lt, add, sub, mul, div, of_nat}
  open num use {round_to, np_mean}

  -- `a / b if b > 0 else 0.0`
  abbrev pub ratio_or_zero : F → F → F
  ratio_or_zero a b = if lt (of_nat 0) b then div a b else of_nat 0

  -- Precision, recall and F1 of a stage, before they are rounded, and its support.
  pub record Scores : Type ℓ where
    pub prec : F
    pub rec : F
    pub f1 : F
    pub support : ℕ

  unfoldable pub scores_of : ℕ → List ℕ → List (List ℕ) → Scores
  unfolding row_sum col_sum
  scores_of s row cm =
      let tp = of_nat (entry row s) in
      let fp = sub (of_nat (col_sum s cm)) tp in
      let fn = sub (of_nat (row_sum row)) tp in
      let prec = ratio_or_zero tp (add tp fp) in
      let rec = ratio_or_zero tp (add tp fn) in
      record {
        prec = prec;
        rec = rec;
        f1 = ratio_or_zero (mul (mul (of_nat 2) prec) rec) (add prec rec);
        support = row_sum row;
      }

  -- `for s in range(self.n_states)`, over the rows from `s` on
  unfoldable pub scores_from : ℕ → List (List ℕ) → List (List ℕ) → List Scores
  unfolding scores_of
  scores_from s [] cm = []
  scores_from s (row ∷ rows) cm = scores_of s row cm ∷ scores_from (suc s) rows cm

  unfoldable pub stage_metrics_from : ℕ → List Scores → List (StageMetrics F)
  stage_metrics_from s [] = []
  stage_metrics_from s (c ∷ scores) =
      record {
        stage_name = stage_name? (pos s);
        precision = round_to 4 c.prec;
        recall = round_to 4 c.rec;
        f1 = round_to 4 c.f1;
        support = c.support;
      }
      ∷ stage_metrics_from (suc s) scores

  -- `float(np.mean(xs)) if xs else 0.0`
  abbrev pub mean_or_zero : List F → F
  mean_or_zero [] = of_nat 0
  mean_or_zero (x ∷ xs) = np_mean (x ∷ xs)

  abbrev pub nothing_evaluated : ℕ → EvaluationMetrics F
  nothing_evaluated n = record {
    accuracy = of_nat 0;
    precision_macro = of_nat 0;
    recall_macro = of_nat 0;
    f1_macro = of_nat 0;
    stage_metrics = [];
    confusion_matrix = replicate n (replicate n 0);
    mean_lead_time_steps = of_nat 0;
    mean_lead_time_seconds = of_nat 0;
    total_samples = 0;
  }

  -- `lead_times=None` is the empty list: both give no mean.
  unfoldable pub evaluate :
      (n_states step_seconds : ℕ) → List ℤ → List ℤ → List ℕ → EvaluationMetrics F
  unfolding confusion trace_from scores_from stage_metrics_from
  evaluate n step_seconds y_true y_pred lead_times =
      let total = length y_true in
      let cm = confusion n y_true y_pred (replicate n (replicate n 0)) in
      let scores = scores_from 0 cm cm in
      let supported = filter (λ c. ltb 0 c.support) scores in
      let mean_lt_steps = mean_or_zero (map of_nat (filter (λ lt. ltb 0 lt) lead_times)) in
      if (total == 0) || not (total == length y_pred) then nothing_evaluated n else record {
        accuracy = round_to 4 (div (of_nat (trace_from 0 cm)) (of_nat total));
        precision_macro = round_to 4 (mean_or_zero (map (λ c. c.prec) supported));
        recall_macro = round_to 4 (mean_or_zero (map (λ c. c.rec) supported));
        f1_macro = round_to 4 (mean_or_zero (map (λ c. c.f1) supported));
        stage_metrics = stage_metrics_from 0 scores;
        confusion_matrix = cm;
        mean_lead_time_steps = round_to 2 mean_lt_steps;
        mean_lead_time_seconds = round_to 1 (mul mean_lt_steps (of_nat step_seconds));
        total_samples = total;
      }

-- `pred_trajectory_func`, a parameter of `analyze_lead_times`.
abbrev pub Forecast : Type 0
Forecast = ℤ → ℕ → List ℤ

-- `surge_indices[0]`, from index `i` on
unfoldable pub first_surge : ℤ → ℕ → List ℤ → Option ℕ
first_surge threshold i [] = none
first_surge threshold i (state ∷ seq) =
    if leb_ℤ threshold state then some i else first_surge threshold (suc i) seq

-- `trajectory and trajectory[-1] >= surge_threshold`
abbrev pub ends_in_surge : ℤ → List ℤ → Bool
ends_in_surge threshold [] = false
ends_in_surge threshold (s ∷ []) = leb_ℤ threshold s
ends_in_surge threshold (s ∷ t ∷ stages) = ends_in_surge threshold (t ∷ stages)

-- The forecast made `step_back` steps before the surge.
unfoldable pub predicts : Forecast → ℤ → List ℤ → ℕ → ℕ → Bool
predicts forecast threshold seq first step_back = elim (get_elem? seq (first - step_back)) [
  | none ↦ false
  | some hist_state ↦ ends_in_surge threshold (forecast hist_state step_back)
]

-- `for step_back in range(step_back, step_back + n)`
unfoldable pub look_back : (ℕ → Bool) → ℕ → ℕ → ℕ → ℕ
look_back hit zero step_back max_lead = max_lead
look_back hit (suc n) step_back max_lead =
    look_back hit n (suc step_back) (if hit step_back then max max_lead step_back else max_lead)

-- The lead time of a sequence; `none` where it has no surge to look for.
unfoldable pub lead_time : Forecast → ℤ → ℕ → List ℤ → Option ℕ
unfolding first_surge predicts look_back
lead_time forecast threshold horizon [] = none
lead_time forecast threshold horizon (s ∷ []) = none
lead_time forecast threshold horizon (s ∷ t ∷ seq) = elim (first_surge threshold 0 (s ∷ t ∷ seq)) [
  | none ↦ none
  | some first ↦ some (
      look_back (predicts forecast threshold (s ∷ t ∷ seq) first)
        (min (horizon + 1) (first + 1) - 1) 1 0)
]

unfoldable pub analyze_lead_times : Forecast → ℤ → ℕ → List (List ℤ) → List ℕ
unfolding lead_time
analyze_lead_times forecast threshold horizon [] = []
analyze_lead_times forecast threshold horizon (seq ∷ seqs) =
    let rest = analyze_lead_times forecast threshold horizon seqs in
    elim (lead_time forecast threshold horizon seq) [
      | none ↦ rest
      | some max_lead ↦ if ltb 0 max_lead then max_lead ∷ rest else rest
    ]
