-- ===== src/Protocol/MarkovAdapter.antt =====
-- `MarkovChainAdapter` of forecasting/models/protocol.py.
use turbo_sh.Common.{ℕ, String, List, Option, none, some, pos, Float}
use turbo_sh.Markov.{MarkovChain, NumPy, predict_trajectory, predict_trajectory_proba}
use turbo_sh.Hmm.{HmmForecaster, Gaussian, predict as hmm_predict}
use turbo_sh.DataLoader.{FeatureScaler}
use turbo_sh.Neural.{traverse}
use turbo_sh.Protocol.{Sequence, ForecastModel, fill_rows, to_unscaled, model_size}

pub record MarkovChainAdapter {ℓ} (F : Type ℓ) : Type ℓ where
  pub mc : Option (MarkovChain F)
  pub hmm : Option (HmmForecaster F)
  pub n_states : ℕ
  pub forecast_horizon : ℕ
  pub model_path : Option String
  pub scaler : Option (FeatureScaler F)

-- `__init__`
abbrev pub new_adapter {ℓ} :
    {F : Type ℓ} → Option (HmmForecaster F) → (n_states forecast_horizon : ℕ) → MarkovChainAdapter F
new_adapter hmm_model n_states forecast_horizon = record {
  mc = none;
  hmm = hmm_model;
  n_states = n_states;
  forecast_horizon = forecast_horizon;
  model_path = none;
  scaler = none;
}

abbrev pub set_scaler {ℓ} :
    {F : Type ℓ} → Option (FeatureScaler F) → MarkovChainAdapter F → MarkovChainAdapter F
set_scaler scaler a = record a { scaler = scaler }

abbrev pub set_hmm {ℓ} :
    {F : Type ℓ} → Option (HmmForecaster F) → MarkovChainAdapter F → MarkovChainAdapter F
set_hmm hmm a = record a { hmm = hmm }

-- `load`, from the chain that each file holds
abbrev pub load {ℓ} :
    {F : Type ℓ}
    → (String → Option (MarkovChain F))
    → String
    → MarkovChainAdapter F
    → Option (MarkovChainAdapter F)
load files path a = elim (files path) [
  | none ↦ none
  | some chain ↦ some (record a { mc = some chain; model_path = some path })
]

module _ {ℓ} {F : Type ℓ} ⦃f : Float F⦄ (np : NumPy F) (gauss : Gaussian F) (width : ℕ) where
  -- `_decode_current_state`
  unfoldable pub decode_current_state : MarkovChainAdapter F → Sequence F → Option ℕ
  unfolding to_unscaled
  decode_current_state a sequence = elim a.hmm [
    | none ↦ some 0
    | some hmm ↦ elim (to_unscaled width a.scaler sequence) [
      | none ↦ none
      | some observations ↦ hmm_predict np gauss hmm observations
    ]
  ]

  unfoldable pub predict : MarkovChainAdapter F → Sequence F → Option (List ℕ)
  unfolding decode_current_state
  predict a sequence = elim a.mc [
    | none ↦ none
    | some mc ↦ elim (decode_current_state a sequence) [
      | none ↦ none
      | some state ↦ predict_trajectory np (pos state) a.forecast_horizon mc
    ]
  ]

  unfoldable pub predict_proba : MarkovChainAdapter F → Sequence F → Option (List (List F))
  unfolding decode_current_state fill_rows
  predict_proba a sequence = elim a.mc [
    | none ↦ none
    | some mc ↦ elim (decode_current_state a sequence) [
      | none ↦ none
      | some state ↦ elim (predict_trajectory_proba np (pos state) a.forecast_horizon mc) [
        | none ↦ none
        | some dists ↦ fill_rows a.forecast_horizon a.n_states dists
      ]
    ]
  ]

  unfoldable pub predict_batch : MarkovChainAdapter F → List (Sequence F) → Option (List (List ℕ))
  unfolding predict
  predict_batch a sequences = traverse (predict a) sequences

  unfoldable pub predict_proba_batch :
      MarkovChainAdapter F → List (Sequence F) → Option (List (List (List F)))
  unfolding predict_proba
  predict_proba_batch a sequences = traverse (predict_proba a) sequences

  -- The adapter as a `ForecastModel`, with the sizes of files.
  abbrev pub as_model : (String → Option ℕ) → MarkovChainAdapter F → ForecastModel F
  as_model file_size a = record {
    model_name = "Markov Chain";
    predict = predict a;
    predict_proba = predict_proba a;
    predict_batch = predict_batch a;
    predict_proba_batch = predict_proba_batch a;
    get_model_size_bytes = model_size file_size a.model_path;
  }
