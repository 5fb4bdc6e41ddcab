-- ===== src/Protocol/TransformerAdapter.antt =====
-- `TransformerAdapter` of forecasting/models/protocol.py.
use turbo_sh.Common.{ℕ, String, List, Option, none, some, Float}
use turbo_sh.Markov.{NumPy}
use turbo_sh.DataLoader.{rows2, rows3}
use turbo_sh.Neural.Attention.{Torch}
use turbo_sh.Neural.Transformer.{
  TransformerForecaster, predict as model_predict, predict_proba as model_predict_proba,
}
use turbo_sh.Protocol.{
  Sequence, ForecastModel, first_stages, first_probs, all_stages, all_probs, model_size,
}

pub record TransformerAdapter {ℓ} (F : Type ℓ) : Type ℓ where
  pub model : Option (TransformerForecaster F)
  pub forecast_horizon : ℕ
  pub model_path : Option String

-- `__init__`
abbrev pub new_adapter {ℓ} : {F : Type ℓ} → ℕ → TransformerAdapter F
new_adapter forecast_horizon = record {
  model = none;
  forecast_horizon = forecast_horizon;
  model_path = none;
}

-- `load`, from the model that each file holds
abbrev pub load {ℓ} :
    {F : Type ℓ}
    → (String → Option (TransformerForecaster F))
    → String
    → TransformerAdapter F
    → Option (TransformerAdapter F)
load files path a = elim (files path) [
  | none ↦ none
  | some model ↦ some (record a { model = some model; model_path = some path })
]

module _ {ℓ} {F : Type ℓ} ⦃f : Float F⦄ (np : NumPy F) (torch : Torch F) (width : ℕ) where
  unfoldable pub predict : TransformerAdapter F → Sequence F → Option (List ℕ)
  predict a sequence = elim a.model [
    | none ↦ none
    | some model ↦ first_stages (model_predict np torch model (rows2 width sequence))
  ]

  unfoldable pub predict_proba : TransformerAdapter F → Sequence F → Option (List (List F))
  predict_proba a sequence = elim a.model [
    | none ↦ none
    | some model ↦ first_probs (model_predict_proba np torch model (rows2 width sequence))
  ]

  unfoldable pub predict_batch : TransformerAdapter F → List (Sequence F) → Option (List (List ℕ))
  predict_batch a sequences = elim a.model [
    | none ↦ none
    | some model ↦ all_stages (model_predict np torch model (rows3 width sequences))
  ]

  unfoldable pub predict_proba_batch :
      TransformerAdapter F → List (Sequence F) → Option (List (List (List F)))
  predict_proba_batch a sequences = elim a.model [
    | none ↦ none
    | some model ↦ all_probs (model_predict_proba np torch model (rows3 width sequences))
  ]

  -- The adapter as a `ForecastModel`, with the sizes of files.
  abbrev pub as_model : (String → Option ℕ) → TransformerAdapter F → ForecastModel F
  as_model file_size a = record {
    model_name = "Transformer";
    predict = predict a;
    predict_proba = predict_proba a;
    predict_batch = predict_batch a;
    predict_proba_batch = predict_proba_batch a;
    get_model_size_bytes = model_size file_size a.model_path;
  }
