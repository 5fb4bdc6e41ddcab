-- ===== src/Neural/Lstm.antt =====
-- `LSTMForecaster` of forecasting/models/lstm_model.py.
use turbo_sh.Common.{ℕ, List, map, Option, none, some, get_last?}
use turbo_sh.Markov.{NumPy}
use turbo_sh.DataLoader.{Array}
use turbo_sh.Neural.{
  traverse, view, batch_of, squeezed, Stages, StepForecast, argmax_last, step_forecasts,
}

-- The layers: `lstm` of a sequence, `fc` and `head` of a vector.
pub record LstmForecaster {ℓ} (F : Type ℓ) : Type ℓ where
  pub input_size : ℕ
  pub hidden_size : ℕ
  pub num_layers : ℕ
  pub num_classes : ℕ
  pub forecast_horizon : ℕ
  pub dropout_rate : F
  pub lstm : List (List F) → List (List F)
  pub fc : List F → List F
  pub head : List F → List F

module _ {ℓ} {F : Type ℓ} (np : NumPy F) (softmax : List F → List F) where
  -- The logits of one sample; `none` where the sequence is empty, or `view` raises.
  unfoldable pub forward : LstmForecaster F → List (List F) → Option (List (List F))
  forward m x = elim (get_last? (m.lstm x)) [
    | none ↦ none
    | some h_t ↦ view m.forecast_horizon m.num_classes (m.head (m.fc h_t))
  ]

  unfoldable pub predict_proba : LstmForecaster F → Array F → Option (Array F)
  unfolding forward
  predict_proba m x = elim (traverse (forward m) (batch_of x)) [
    | none ↦ none
    | some logits ↦ squeezed m.num_classes x (map (map softmax) logits)
  ]

  unfoldable pub predict : LstmForecaster F → Array F → Option Stages
  unfolding predict_proba
  predict m x = elim (predict_proba m x) [ none ↦ none | some probs ↦ some (argmax_last np probs) ]

  unfoldable pub predict_with_confidence :
      LstmForecaster F → Array F → Option (List (List (StepForecast F)))
  unfolding predict_proba
  predict_with_confidence m x = elim (predict_proba m x) [
    | none ↦ none
    | some probs ↦ traverse (step_forecasts np m.forecast_horizon 0) (batch_of probs)
  ]
