-- ===== src/Neural.antt =====
-- What forecasting/models/lstm_model.py and forecasting/models/transformer_model.py share: the input
-- of one sample or of a batch, the class probabilities, and `StepForecast`. The layers of PyTorch
-- are parameters, each a function of the entries that it treats alone, in evaluation mode.
pub mod Lstm
pub mod Attention
pub mod Transformer
pub mod Heads
use turbo_sh.Common.{
  ℕ, zero, suc, ◌+◌, ◌*◌, ◌==◌, String, List, [], ◌∷◌, map, Option, none, some, pos, if◌then◌else◌,
  length, take, drop, get_elem?, Float,
}
use turbo_sh.Config.{stage_name?}
use turbo_sh.Markov.{NumPy}
use turbo_sh.DataLoader.{Array, rows2, rows3}

-- `none` where the function has none for an element.
abbrev pub traverse {ℓ κ} : {A : Type ℓ} {B : Type κ} → (A → Option B) → List A → Option (List B)
traverse g [] = some []
traverse g (x ∷ xs) = elim (g x) [
  | none ↦ none
  | some y ↦ elim (traverse g xs) [ none ↦ none | some ys ↦ some (y ∷ ys) ]
]

-- Rows of `width` entries, one after another.
abbrev pub chunks {ℓ} : {A : Type ℓ} → ℕ → ℕ → List A → List (List A)
chunks zero width xs = []
chunks (suc n) width xs = take width xs ∷ chunks n width (drop width xs)

-- `view(n, width)`; `none` is the `RuntimeError` of another number of entries.
abbrev pub view {ℓ} : {A : Type ℓ} → ℕ → ℕ → List A → Option (List (List A))
view n width xs = if length xs == n * width then some (chunks n width xs) else none

-- `np.expand_dims(x, axis=0)` for one sample
abbrev pub batch_of {ℓ} : {F : Type ℓ} → Array F → List (List (List F))
batch_of (rows2 width rows) = rows ∷ []
batch_of (rows3 width blocks) = blocks

-- `probs[0]` where the input was one sample
abbrev pub squeezed {ℓ} : {F : Type ℓ} → ℕ → Array F → List (List (List F)) → Option (Array F)
squeezed width (rows2 w rows) [] = none
squeezed width (rows2 w rows) (probs ∷ _) = some (rows2 width probs)
squeezed width (rows3 w blocks) probs = some (rows3 width probs)

-- The predicted stages of one sample, or of a batch.
pub data Stages : Type 0 where
  steps : List ℕ → Stages
  batch : List (List ℕ) → Stages

pub record StepForecast {ℓ} (F : Type ℓ) : Type ℓ where
  pub horizon_step : ℕ
  pub stage : ℕ
  pub stage_name : Option String
  pub confidence : F
  pub probabilities : List F

module _ {ℓ} {F : Type ℓ} (np : NumPy F) where
  -- `np.argmax(probs, axis=-1)`
  abbrev pub argmax_last : Array F → Stages
  argmax_last (rows2 width rows) = steps (map np.np_argmax rows)
  argmax_last (rows3 width blocks) = batch (map (map np.np_argmax) blocks)

  -- The forecast of a step from its probabilities.
  abbrev pub step_forecast : ℕ → List F → Option (StepForecast F)
  step_forecast h p_h =
      let best_stage = np.np_argmax p_h in
      elim (get_elem? p_h best_stage) [
        | none ↦ none
        | some conf ↦ some (record {
          horizon_step = h + 1;
          stage = best_stage;
          stage_name = stage_name? (pos best_stage);
          confidence = conf;
          probabilities = p_h;
        })
      ]

  -- `for h in range(h, h + n)`; `none` is an `IndexError`.
  abbrev pub step_forecasts : ℕ → ℕ → List (List F) → Option (List (StepForecast F))
  step_forecasts zero h probs = some []
  step_forecasts (suc n) h [] = none
  step_forecasts (suc n) h (p_h ∷ probs) = elim (step_forecast h p_h) [
    | none ↦ none
    | some step ↦ elim (step_forecasts n (suc h) probs) [
      | none ↦ none
      | some rest ↦ some (step ∷ rest)
    ]
  ]
