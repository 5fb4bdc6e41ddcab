-- ===== src/Protocol.antt =====
-- forecasting/models/protocol.py: the interface `ForecastModel`, what its adapters
-- share, and the measurement of latency. `none` is a raised exception. The files of models, and the clock, are
-- parameters.
pub mod MarkovAdapter
pub mod HmmAdapter
pub mod LstmAdapter
pub mod TransformerAdapter
pub mod Forecasts
use turbo_sh.Common.{
  ℕ, zero, suc, ◌-◌, String, List, [], ◌∷◌, ◌++◌, map, Option, none, some, pos, if◌then◌else◌, leb,
  length, replicate, str_eq, Float,
}
use turbo_sh.Markov.{MarkovChain, NumPy, predict_trajectory, predict_trajectory_proba}
use turbo_sh.Hmm.{HmmForecaster, Gaussian}
use turbo_sh.DataLoader.{Array, rows2, rows3, FeatureScaler, inverse_transform}
use turbo_sh.Neural.{Stages, steps, batch, traverse}
use turbo_sh.Neural.Lstm.{LstmForecaster}
use turbo_sh.Neural.Attention.{Torch}
use turbo_sh.Neural.Transformer.{TransformerForecaster}

-- A window, an array of rows of `n_features` entries.
abbrev pub Sequence {ℓ} : Type ℓ → Type ℓ
Sequence F = List (List F)

-- The contract: the operations that the benchmark calls.
pub record ForecastModel {ℓ} (F : Type ℓ) : Type ℓ where
  pub model_name : String
  pub predict : Sequence F → Option (List ℕ)
  pub predict_proba : Sequence F → Option (List (List F))
  pub predict_batch : List (Sequence F) → Option (List (List ℕ))
  pub predict_proba_batch : List (Sequence F) → Option (List (List (List F)))
  pub get_model_size_bytes : ℕ

pub record InferenceTimingResult {ℓ} (F : Type ℓ) : Type ℓ where
  pub median_ms : F
  pub mean_ms : F
  pub std_ms : F
  pub min_ms : F
  pub max_ms : F
  pub num_runs : ℕ
  pub warmup_runs : ℕ

-- NumPy's statistics of a list of times
pub record Times {ℓ} (F : Type ℓ) : Type ℓ where
  pub np_median : List F → F
  pub np_mean : List F → F
  pub np_std : List F → F
  pub np_min : List F → F
  pub np_max : List F → F

-- `self._scaler.inverse_transform(sequence.reshape(1, *sequence.shape))[0]`
abbrev pub first_block {ℓ} : {F : Type ℓ} → Option (Array F) → Option (Sequence F)
first_block none = none
first_block (some (rows2 width rows)) = none
first_block (some (rows3 width [])) = none
first_block (some (rows3 width (rows ∷ blocks))) = some rows

-- `preds[0]` of a batch, or the stages themselves
abbrev pub first_stages : Option Stages → Option (List ℕ)
first_stages none = none
first_stages (some (steps stages)) = some stages
first_stages (some (batch [])) = none
first_stages (some (batch (stages ∷ _))) = some stages

abbrev pub first_probs {ℓ} : {F : Type ℓ} → Option (Array F) → Option (List (List F))
first_probs none = none
first_probs (some (rows2 width rows)) = some rows
first_probs (some (rows3 width [])) = none
first_probs (some (rows3 width (rows ∷ blocks))) = some rows

-- What the model returns for an array of three dimensions.
abbrev pub all_stages : Option Stages → Option (List (List ℕ))
all_stages none = none
all_stages (some (steps stages)) = none
all_stages (some (batch rows)) = some rows

abbrev pub all_probs {ℓ} : {F : Type ℓ} → Option (Array F) → Option (List (List (List F)))
all_probs none = none
all_probs (some (rows2 width rows)) = none
all_probs (some (rows3 width blocks)) = some blocks

-- `os.path.getsize(path) if path and os.path.exists(path) else 0`
unfoldable pub model_size : (String → Option ℕ) → Option String → ℕ
model_size file_size none = 0
model_size file_size (some path) =
    if str_eq path "" then 0 else elim (file_size path) [ none ↦ 0 | some size ↦ size ]

-- `for _ in range(runs): model.predict(sample_input)`
abbrev pub warmup {κ} : {O : Type κ} → Option O → ℕ → Option (Unit {0})
warmup outcome zero = some tt
warmup none (suc runs) = none
warmup (some o) (suc runs) = warmup (some o) runs

module _ {ℓ} {F : Type ℓ} ⦃f : Float F⦄ where
  open f use {sub, mul, of_nat}

  -- A row of `probs`; `none` is the `IndexError` of a state that it has no column for.
  abbrev pub fill : ℕ → List F → Option (List F)
  fill n_states dist =
      if leb (length dist) n_states
      then some (dist ++ replicate (n_states - length dist) (of_nat 0))
      else none

  -- `probs[h, s] = p` for each distribution, on rows of zeros
  unfoldable pub fill_rows : (horizon n_states : ℕ) → List (List F) → Option (List (List F))
  fill_rows zero n_states [] = some []
  fill_rows zero n_states (dist ∷ dists) = none
  fill_rows (suc horizon) n_states [] = elim (fill_rows horizon n_states []) [
    | none ↦ none
    | some rows ↦ some (replicate n_states (of_nat 0) ∷ rows)
  ]
  fill_rows (suc horizon) n_states (dist ∷ dists) = elim (fill n_states dist) [
    | none ↦ none
    | some row ↦ elim (fill_rows horizon n_states dists) [
      | none ↦ none
      | some rows ↦ some (row ∷ rows)
    ]
  ]

  -- Without a scaler the sequence is taken as it is.
  unfoldable pub to_unscaled : ℕ → Option (FeatureScaler F) → Sequence F → Option (Sequence F)
  to_unscaled width none sequence = some sequence
  to_unscaled width (some scaler) sequence =
      first_block (inverse_transform scaler (rows3 width (sequence ∷ [])))

  -- The runs of `measure_inference_latency`: the clock before and after each, and `none` where
  -- `predict` raises.
  unfoldable pub timed_runs {κ} : {O : Type κ} → Option O → (ℕ → F) → ℕ → ℕ → Option (List F)
  timed_runs outcome clock tick zero = some []
  timed_runs none clock tick (suc runs) = none
  timed_runs (some o) clock tick (suc runs) =
      elim (timed_runs (some o) clock (suc (suc tick)) runs) [
        | none ↦ none
        | some times ↦ some (mul (sub (clock (suc tick)) (clock tick)) (of_nat 1000) ∷ times)
      ]

  unfoldable pub measure_inference_latency :
      Times F
      → (ℕ → F)
      → ForecastModel F
      → Sequence F
      → (num_runs warmup_runs : ℕ) → Option (InferenceTimingResult F)
  unfolding timed_runs
  measure_inference_latency times clock model sample_input num_runs warmup_runs =
      elim (warmup (model.predict sample_input) warmup_runs) [
        | none ↦ none
        | some _ ↦ elim (timed_runs (model.predict sample_input) clock 0 num_runs) [
          | none ↦ none
          | some arr ↦ some (record {
            median_ms = times.np_median arr;
            mean_ms = times.np_mean arr;
            std_ms = times.np_std arr;
            min_ms = times.np_min arr;
            max_ms = times.np_max arr;
            num_runs = num_runs;
            warmup_runs = warmup_runs;
          })
        ]
      ]
