-- ===== src/Explainability.antt =====
-- forecasting/explainability.py: `Explainer`, which explains the forecasts of the LSTM. The gradient of
-- a logit and the sums of PyTorch are parameters, and a sentence is a value of its parts.
pub mod Ranking
use turbo_sh.Common.{
  ℕ, zero, suc, ◌-◌, ◌==◌, ◌||◌, String, List, [], ◌∷◌, map, Bool, Option, none, some, pos,
  if◌then◌else◌, ltb, length, take, get_elem?, Float,
}
use turbo_sh.Config.{stage_name?}
use turbo_sh.Mitre.{MitreTechnique, map_stage_to_techniques}
use turbo_sh.Markov.{NumPy, tabulate}
use turbo_sh.DataLoader.{Array, rows2, rows3, zip_with}
use turbo_sh.Neural.{traverse, batch_of}
use turbo_sh.Neural.Lstm.{LstmForecaster, forward, predict_proba}

-- The gradient of the logit of a class at a step, by the entries of a sequence; the absolute value;
-- and the sums of the columns.
pub record Autograd {ℓ} (F : Type ℓ) : Type ℓ where
  pub gradient : List (List F) → ℕ → ℕ → List (List F)
  pub abs : F → F
  pub sum_columns : List (List F) → List F

pub record Explainer {ℓ} (F : Type ℓ) : Type ℓ where
  pub model : LstmForecaster F
  pub feature_names : List String

-- The sentence of `generate_reasoning`: the first two features, and the first technique.
pub data Reasoning {ℓ} (F : Type ℓ) : Type ℓ where
  nominal : ℕ → F → List (String × F) → Reasoning F
  threat : Option String → ℕ → F → List (String × F) → Option MitreTechnique → Reasoning F

pub record ForecastExplanation {ℓ} (F : Type ℓ) : Type ℓ where
  pub horizon_step : ℕ
  pub predicted_stage : ℕ
  pub stage_name : Option String
  pub confidence : F
  pub top_features : List (String × F)
  pub feature_attributions : List (String × F)
  pub mitre_techniques : List MitreTechnique
  pub reasoning : Reasoning F

abbrev pub zip {ℓ κ} : {A : Type ℓ} {B : Type κ} → List A → List B → List (A × B)
zip (x ∷ xs) (y ∷ ys) = (x, y) ∷ zip xs ys
zip _ _ = []

-- `mitre_techniques[0]`, if there is one
abbrev pub first_technique : List MitreTechnique → Option MitreTechnique
first_technique [] = none
first_technique (t ∷ techniques) = some t

unfoldable pub generate_reasoning {ℓ} :
    {F : Type ℓ} → ℕ → Option String → F → List (String × F) → List MitreTechnique → ℕ → Reasoning F
generate_reasoning zero stage_name confidence top_features techniques horizon_step =
    nominal horizon_step confidence (take 2 top_features)
generate_reasoning (suc stage) stage_name confidence top_features techniques horizon_step =
    threat stage_name horizon_step confidence (take 2 top_features) (first_technique techniques)

-- `horizon_step < 1 or horizon_step > self.model.forecast_horizon`
abbrev pub out_of_range {ℓ} : {F : Type ℓ} → Explainer F → ℕ → Bool
out_of_range explainer horizon_step =
    ltb horizon_step 1 || ltb explainer.model.forecast_horizon horizon_step

-- The row of a step, of one sample or of the first of a batch.
abbrev pub step_row {ℓ} : {F : Type ℓ} → Array F → ℕ → Option (List F)
step_row (rows2 width rows) h = get_elem? rows h
step_row (rows3 width []) h = none
step_row (rows3 width (rows ∷ blocks)) h = get_elem? rows h

module _ {ℓ} {F : Type ℓ} ⦃f : Float F⦄ where
  -- `sorted(items, key=value, reverse=True)`: equal values keep their order.
  unfoldable pub insert_desc : String × F → List (String × F) → List (String × F)
  insert_desc e [] = e ∷ []
  insert_desc e (x ∷ xs) =
      let rest = insert_desc e xs in if f.lt e.1 x.1 then x ∷ rest else e ∷ x ∷ xs

  unfoldable pub sort_desc : List (String × F) → List (String × F)
  unfolding insert_desc
  sort_desc [] = []
  sort_desc (e ∷ items) = insert_desc e (sort_desc items)

  -- The explanation from the probabilities of the step and the attributions.
  unfoldable pub explanation_of : ℕ → ℕ → F → List (String × F) → ForecastExplanation F
  unfolding sort_desc generate_reasoning
  explanation_of horizon_step stage confidence attributions =
      let techniques = map_stage_to_techniques (pos stage) in
      let top = sort_desc attributions in
      record {
        horizon_step = horizon_step;
        predicted_stage = stage;
        stage_name = stage_name? (pos stage);
        confidence = confidence;
        top_features = top;
        feature_attributions = attributions;
        mitre_techniques = techniques;
        reasoning =
            generate_reasoning stage (stage_name? (pos stage)) confidence top techniques
              horizon_step;
      }

module _ {ℓ} {F : Type ℓ} ⦃f : Float F⦄ (np : NumPy F) (softmax : List F → List F)
    (autograd : Autograd F) where
  open f use {lt, mul, div, of_nat, ratio}
  open np use {np_sum, np_argmax}
  open autograd use {gradient, abs, sum_columns}

  -- The attributions in proportion, or the same for each feature where they vanish.
  unfoldable pub normalized : List F → List F
  normalized importance =
      let total = np_sum importance in
      if lt (ratio 1 1_000_000_000_000) total
      then map (λ x. div x total) importance
      else map (λ x. div (of_nat 1) (of_nat (length importance))) importance

  -- The summed magnitudes of input times gradient.
  unfoldable pub importance_of : List (List F) → ℕ → ℕ → List F
  importance_of x h_idx target_class =
      sum_columns (map (map abs) (zip_with (zip_with mul) x (gradient x h_idx target_class)))

  -- The scores by name; `none` is the `ValueError` of another number of features. Names are distinct.
  abbrev pub named : List String → List F → Option (List (String × F))
  named names scores = if length names == length scores then some (zip names scores) else none

  -- The class that is explained, by the logits of the first sample.
  abbrev pub target_of : List (List (List F)) → ℕ → Option ℕ → Option ℕ
  target_of [] h_idx target_class = none
  target_of (rows ∷ logits) h_idx target_class = elim (get_elem? rows h_idx) [
    | none ↦ none
    | some row ↦
        let c : ℕ = elim target_class [ none ↦ np_argmax row | some given ↦ given ] in
        elim (get_elem? row c) [ none ↦ none | some score ↦ some c ]
  ]

  abbrev pub first_sample : List (List (List F)) → List (List F)
  first_sample [] = []
  first_sample (x ∷ xs) = x

  unfoldable pub attribute_features :
      Explainer F → Array F → ℕ → Option ℕ → Option (List (String × F))
  unfolding forward normalized importance_of
  attribute_features explainer input_seq horizon_step target_class =
      let h_idx = horizon_step - 1 in
      if out_of_range explainer horizon_step
      then none
      else elim (traverse (forward np softmax explainer.model) (batch_of input_seq)) [
        | none ↦ none
        | some logits ↦ elim (target_of logits h_idx target_class) [
          | none ↦ none
          | some c ↦
              named explainer.feature_names
                (normalized (importance_of (first_sample (batch_of input_seq)) h_idx c))
        ]
      ]

  -- `explain`; `none` is an exception.
  unfoldable pub explain : Explainer F → Array F → ℕ → Option (ForecastExplanation F)
  unfolding attribute_features explanation_of
  explain explainer input_seq horizon_step =
      if out_of_range explainer horizon_step
      then none
      else elim (predict_proba np softmax explainer.model input_seq) [
        | none ↦ none
        | some probs ↦ elim (step_row probs (horizon_step - 1)) [
          | none ↦ none
          | some step_probs ↦
              let stage = np_argmax step_probs in
              elim (get_elem? step_probs stage) [
                | none ↦ none
                | some confidence ↦
                    elim (attribute_features explainer input_seq horizon_step (some stage)) [
                      | none ↦ none
                      | some attributions ↦
                          some (explanation_of horizon_step stage confidence attributions)
                    ]
              ]
        ]
      ]

  -- `for h in range(1, self.model.forecast_horizon + 1)`
  unfoldable pub explain_all : Explainer F → Array F → Option (List (ForecastExplanation F))
  unfolding explain
  explain_all explainer input_seq =
      traverse (explain explainer input_seq) (tabulate 1 explainer.model.forecast_horizon (λ h. h))
