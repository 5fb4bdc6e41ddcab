-- ===== src/Protocol/HmmAdapter.antt =====
-- `HMMAdapter` of forecasting/models/protocol.py.
use turbo_sh.Common.{ℕ, String, List, Option, none, some, Float}
use turbo_sh.Markov.{NumPy}
use turbo_sh.Hmm.{HmmForecaster, Gaussian, forecast, forecast_proba}
use turbo_sh.DataLoader.{FeatureScaler}
use turbo_sh.Neural.{traverse}
use turbo_sh.Protocol.{Sequence, ForecastModel, fill_rows, to_unscaled, model_size}

pub record HmmAdapter {ℓ} (F : Type ℓ) : Type ℓ where
  pub hmm : Option (HmmForecaster F)
  pub n_states : ℕ
  pub forecast_horizon : ℕ
  pub model_path : Option String
  pub scaler : Option (FeatureScaler F)

-- `__init__`
abbrev pub new_adapter {ℓ} : {F : Type ℓ} → (n_states forecast_horizon : ℕ) → HmmAdapter F
new_adapter n_states forecast_horizon = record {
  hmm = none;
  n_states = n_states;
  forecast_horizon = forecast_horizon;
  model_path = none;
  scaler = none;
}

abbrev pub set_scaler {ℓ} : {F : Type ℓ} → Option (FeatureScaler F) → HmmAdapter F → HmmAdapter F
set_scaler scaler a = record a { scaler = scaler }

-- `load`, from the model that each file holds
abbrev pub load {ℓ} :
    {F : Type ℓ}
    → (String → Option (HmmForecaster F))
    → String
    → HmmAdapter F
    → Option (HmmAdapter F)
load files path a = elim (files path) [
  | none ↦ none
  | some hmm ↦ some (record a { hmm = some hmm; model_path = some path })
]

module _ {ℓ} {F : Type ℓ} ⦃f : Float F⦄ (np : NumPy F) (gauss : Gaussian F) (width : ℕ) where
  unfoldable pub predict : HmmAdapter F → Sequence F → Option (List ℕ)
  unfolding to_unscaled
  predict a sequence = elim a.hmm [
    | none ↦ none
    | some hmm ↦ elim (to_unscaled width a.scaler sequence) [
      | none ↦ none
      | some obs ↦ forecast np gauss hmm obs a.forecast_horizon
    ]
  ]

  unfoldable pub predict_proba : HmmAdapter F → Sequence F → Option (List (List F))
  unfolding to_unscaled fill_rows
  predict_proba a sequence = elim a.hmm [
    | none ↦ none
    | some hmm ↦ elim (to_unscaled width a.scaler sequence) [
      | none ↦ none
      | some obs ↦ elim (forecast_proba np gauss hmm obs a.forecast_horizon) [
        | none ↦ none
        | some dists ↦ fill_rows a.forecast_horizon a.n_states dists
      ]
    ]
  ]

  unfoldable pub predict_batch : HmmAdapter F → List (Sequence F) → Option (List (List ℕ))
  unfolding predict
  predict_batch a sequences = traverse (predict a) sequences

  unfoldable pub predict_proba_batch :
      HmmAdapter F → List (Sequence F) → Option (List (List (List F)))
  unfolding predict_proba
  predict_proba_batch a sequences = traverse (predict_proba a) sequences

  -- The adapter as a `ForecastModel`, with the sizes of files.
  abbrev pub as_model : (String → Option ℕ) → HmmAdapter F → ForecastModel F
  as_model file_size a = record {
    model_name = "Gaussian HMM";
    predict = predict a;
    predict_proba = predict_proba a;
    predict_batch = predict_batch a;
    predict_proba_batch = predict_proba_batch a;
    get_model_size_bytes = model_size file_size a.model_path;
  }
