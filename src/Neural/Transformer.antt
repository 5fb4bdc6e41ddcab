-- ===== src/Neural/Transformer.antt =====
-- `TransformerForecaster` of forecasting/models/transformer_model.py.
use turbo_sh.Common.{
  ℕ, String, List, [], ◌∷◌, map, ◌||◌, Option, none, some, if◌then◌else◌, str_eq, get_last?, Float,
}
use turbo_sh.Markov.{NumPy}
use turbo_sh.DataLoader.{Array, rows2}
use turbo_sh.Neural.{
  traverse, view, batch_of, squeezed, Stages, StepForecast, argmax_last, step_forecasts,
}
use turbo_sh.Neural.Attention.{Torch, Weights, EncoderLayer, add_positions, encode}

pub data Pooling : Type 0 where
  last avg : Pooling

-- The pooling from the two arguments of `__init__`; `none` is the `ValueError`.
unfoldable pub resolve_pooling : String → Option String → Option Pooling
resolve_pooling pooling (some mode) =
    if str_eq mode "avg" || str_eq mode "mean"
    then some avg
    else if str_eq mode "last"
    then some last
    else none
resolve_pooling pooling none =
    if str_eq pooling "avg" || str_eq pooling "mean"
    then some avg
    else if str_eq pooling "last"
    then some last
    else none

pub record TransformerForecaster {ℓ} (F : Type ℓ) : Type ℓ where
  pub num_classes : ℕ
  pub forecast_horizon : ℕ
  pub pooling : Pooling
  pub input_projection : List F → List F
  pub pe : List (List F)
  pub encoder_layers : List (EncoderLayer F)
  pub final_norm : List F → List F
  pub fc : List F → List F
  pub head : List F → List F

-- The forecasts of one sample, or of a batch.
pub data Forecasts {ℓ} (F : Type ℓ) : Type ℓ where
  one : List (StepForecast F) → Forecasts F
  many : List (List (StepForecast F)) → Forecasts F

-- `batch_results[0]` where the input was one sample and there is a result
abbrev pub first_result {ℓ} : {F : Type ℓ} → Array F → List (List (StepForecast F)) → Forecasts F
first_result (rows2 width rows) (steps ∷ _) = one steps
first_result _ results = many results

module _ {ℓ} {F : Type ℓ} ⦃f : Float F⦄ (np : NumPy F) (torch : Torch F) where
  open torch use {softmax, mean_rows}

  -- `for layer in self.encoder_layers`, with the weights that each layer keeps
  unfoldable pub encode_all :
      List (EncoderLayer F) → List (List F) → Option (List (List F) × List (Weights F))
  unfolding encode
  encode_all [] x = some (x, [])
  encode_all (layer ∷ layers) x = elim (encode torch layer x) [
    | none ↦ none
    | some (y, weights) ↦ elim (encode_all layers y) [
      | none ↦ none
      | some (z, kept) ↦ some (z, weights ∷ kept)
    ]
  ]

  unfoldable pub pooled : Pooling → List (List F) → Option (List F)
  pooled last x = get_last? x
  pooled avg x = some (mean_rows x)

  -- The logits of one sample, and the attention weights that its pass leaves in the layers.
  unfoldable pub forward_weights :
      TransformerForecaster F → List (List F) → Option (List (List F) × List (Weights F))
  unfolding add_positions encode_all pooled
  forward_weights m x = elim (add_positions torch m.pe (map m.input_projection x)) [
    | none ↦ none
    | some placed ↦ elim (encode_all m.encoder_layers placed) [
      | none ↦ none
      | some (encoded, weights) ↦ elim (pooled m.pooling (map m.final_norm encoded)) [
        | none ↦ none
        | some p ↦ elim (view m.forecast_horizon m.num_classes (m.head (m.fc p))) [
          | none ↦ none
          | some logits ↦ some (logits, weights)
        ]
      ]
    ]
  ]

  unfoldable pub forward : TransformerForecaster F → List (List F) → Option (List (List F))
  unfolding forward_weights
  forward m x = elim (forward_weights m x) [ none ↦ none | some out ↦ some out.0 ]

  -- For each sample the weights of each layer.
  unfoldable pub get_attention_weights :
      TransformerForecaster F → Array F → Option (List (List (Weights F)))
  unfolding forward_weights
  get_attention_weights m x =
      traverse (λ s. elim (forward_weights m s) [ none ↦ none | some out ↦ some out.1 ])
        (batch_of x)

  unfoldable pub predict_proba : TransformerForecaster F → Array F → Option (Array F)
  unfolding forward
  predict_proba m x = elim (traverse (forward m) (batch_of x)) [
    | none ↦ none
    | some logits ↦ squeezed m.num_classes x (map (map softmax) logits)
  ]

  unfoldable pub predict : TransformerForecaster F → Array F → Option Stages
  unfolding predict_proba
  predict m x = elim (predict_proba m x) [ none ↦ none | some probs ↦ some (argmax_last np probs) ]

  unfoldable pub predict_with_confidence :
      TransformerForecaster F → Array F → Option (List (List (StepForecast F)))
  unfolding predict_proba
  predict_with_confidence m x = elim (predict_proba m x) [
    | none ↦ none
    | some probs ↦ traverse (step_forecasts np m.forecast_horizon 0) (batch_of probs)
  ]

  unfoldable pub forecast : TransformerForecaster F → Array F → Option (Forecasts F)
  unfolding predict_with_confidence
  forecast m x = elim (predict_with_confidence m x) [
    | none ↦ none
    | some results ↦ some (first_result x results)
  ]
