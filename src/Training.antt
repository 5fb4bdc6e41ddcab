-- ===== src/Training.antt =====
-- `train_lstm_forecaster` of forecasting/train_lstm.py and `train_transformer_forecaster` of
-- forecasting/train_transformer.py. The tensors, the gradients, the optimizers and the schedulers of
-- PyTorch are parameters, and so is the state of a model under training.
pub mod Stopping
use turbo_sh.Common.{
  ℕ, zero, suc, ◌+◌, ◌-◌, List, [], ◌∷◌, ◌++◌, Bool, true, false, Option, none, some, if◌then◌else◌,
  leb, max, Float,
}

-- A model with its optimizer, its scheduler and the random generator is a value of `M`, its weights of `W`, the input and the
-- labels of a batch of `X` and `Y`, and logits of `L`.
pub record Trainer {ℓ} (F M W X Y L : Type ℓ) : Type ℓ where
  pub logits : M → X → L
  pub criterion : L → Y → ℕ → F
  pub update : F → M → X → Y → F → M
  pub size : X → ℕ
  pub correct_t1 : L → Y → ℕ
  pub set_mode : Bool → M → M
  pub state_dict : M → W
  pub load_state_dict : W → M → M
  pub inf : F

pub record History {ℓ} (F : Type ℓ) : Type ℓ where
  pub train_loss : List F
  pub val_loss : List F
  pub val_acc_t1 : List F

-- What an epoch measures.
pub record Epoch {ℓ} (F M : Type ℓ) : Type ℓ where
  pub model : M
  pub epoch_train_loss : F
  pub epoch_val_loss : F
  pub epoch_val_acc_t1 : F

-- The variables of the loop over the epochs.
pub record Progress {ℓ} (F M W : Type ℓ) : Type ℓ where
  pub model : M
  pub history : History F
  pub best_val_loss : F
  pub best_weights : Option W
  pub epochs_no_improve : ℕ

module _ {ℓ} {F M W X Y L : Type ℓ} ⦃f : Float F⦄ (trainer : Trainer F M W X Y L)
    (forecast_horizon : ℕ) where
  open f use {lt, add, mul, div, of_nat}
  open trainer use {
    logits, criterion, update, size, correct_t1, set_mode, state_dict, load_state_dict, inf,
  }

  -- `for h in range(h, h + n): loss += criterion(...)`
  abbrev pub sum_steps : ℕ → ℕ → L → Y → F → F
  sum_steps zero h out y loss = loss
  sum_steps (suc n) h out y loss = sum_steps n (suc h) out y (add loss (criterion out y h))

  -- The mean of the losses of the steps of the horizon.
  unfoldable pub horizon_loss : L → Y → F
  horizon_loss out y = div (sum_steps forecast_horizon 0 out y (of_nat 0)) (of_nat forecast_horizon)

  -- The loop over the training batches, with the loss and the number of samples so far.
  unfoldable pub train_batches : F → List (X × Y) → M → F → ℕ → M × F × ℕ
  unfolding horizon_loss
  train_batches max_norm [] m train_loss train_count = (m, train_loss, train_count)
  train_batches max_norm ((x_b, y_b) ∷ batches) m train_loss train_count =
      let loss = horizon_loss (logits m x_b) y_b in
      train_batches max_norm batches (update max_norm m x_b y_b loss)
        (add train_loss (mul loss (of_nat (size x_b)))) (train_count + size x_b)

  -- The loop over the validation batches.
  unfoldable pub validate_batches : List (X × Y) → M → F → ℕ → ℕ → F × ℕ × ℕ
  unfolding horizon_loss
  validate_batches [] m val_loss val_count correct = (val_loss, val_count, correct)
  validate_batches ((x_v, y_v) ∷ batches) m val_loss val_count correct =
      let out = logits m x_v in
      validate_batches batches m (add val_loss (mul (horizon_loss out y_v) (of_nat (size x_v))))
        (val_count + size x_v) (correct + correct_t1 out y_v)

  -- An epoch: training, validation, and the scheduler. A loader gives the batches of the epoch,
  -- shuffled by the random generator, which it moves on.
  unfoldable pub run_epoch :
      (max_norm : F) → (F → M → M) → (train val : M → List (X × Y) × M) → M → Epoch F M
  unfolding train_batches validate_batches
  run_epoch max_norm schedule train val m =
      let (batches, started) = train (set_mode true m) in
      let (trained, train_loss, train_count) =
        train_batches max_norm batches started (of_nat 0) 0 in
      let (val_batches, evaluated) = val (set_mode false trained) in
      let (val_loss, val_count, correct) = validate_batches val_batches evaluated (of_nat 0) 0 0 in
      let epoch_val_loss = div val_loss (of_nat (max 1 val_count)) in
      record {
        model = schedule epoch_val_loss evaluated;
        epoch_train_loss = div train_loss (of_nat (max 1 train_count));
        epoch_val_loss = epoch_val_loss;
        epoch_val_acc_t1 = div (of_nat correct) (of_nat (max 1 val_count));
      }

  abbrev pub logged : Epoch F M → History F → History F
  logged e history = record {
    train_loss = history.train_loss ++ e.epoch_train_loss ∷ [];
    val_loss = history.val_loss ++ e.epoch_val_loss ∷ [];
    val_acc_t1 = history.val_acc_t1 ++ e.epoch_val_acc_t1 ∷ [];
  }

  -- The variables after an epoch.
  unfoldable pub after_epoch : Epoch F M → Progress F M W → Progress F M W
  after_epoch e p =
      if lt e.epoch_val_loss p.best_val_loss
      then record {
        model = e.model;
        history = logged e p.history;
        best_val_loss = e.epoch_val_loss;
        best_weights = some (state_dict e.model);
        epochs_no_improve = 0;
      }
      else record p {
        model = e.model;
        history = logged e p.history;
        epochs_no_improve = suc p.epochs_no_improve;
      }

  -- `break`: never after an epoch that improves.
  abbrev pub stops : ℕ → Epoch F M → Progress F M W → Bool
  stops patience e p =
      if lt e.epoch_val_loss p.best_val_loss then false else leb patience (suc p.epochs_no_improve)

  -- `for epoch in range(1, epochs + 1)`
  unfoldable pub run_epochs : (M → Epoch F M) → ℕ → ℕ → Progress F M W → Progress F M W
  unfolding after_epoch
  run_epochs epoch patience zero p = p
  run_epochs epoch patience (suc epochs) p = elim (stops patience (epoch p.model) p) [
    | true ↦ after_epoch (epoch p.model) p
    | false ↦ run_epochs epoch patience epochs (after_epoch (epoch p.model) p)
  ]

  abbrev pub fresh : M → Progress F M W
  fresh m = record {
    model = m;
    history = record { train_loss = []; val_loss = []; val_acc_t1 = [] };
    best_val_loss = inf;
    best_weights = none;
    epochs_no_improve = 0;
  }

  -- The model with the best weights, if there are any, and the history.
  abbrev pub restored : Progress F M W → M × History F
  restored p = elim p.best_weights [
    | none ↦ (p.model, p.history)
    | some w ↦ (load_state_dict w p.model, p.history)
  ]

  -- Training from a model, with an epoch as a parameter.
  unfoldable pub train : (M → Epoch F M) → ℕ → ℕ → M → M × History F
  unfolding run_epochs
  train epoch patience epochs m = restored (run_epochs epoch patience epochs (fresh m))

  -- `scheduler.step(epoch_val_loss)`, and a maximal norm of 5.0
  unfoldable pub train_lstm_forecaster :
      (F → M → M)
      → (train_loader val_loader : M → List (X × Y) × M) → (epochs patience : ℕ) → M
      → M × History F
  unfolding train run_epoch
  train_lstm_forecaster plateau train_loader val_loader epochs patience model =
      train (run_epoch (of_nat 5) plateau train_loader val_loader) patience epochs model

  -- `scheduler.step()`, and a maximal norm of 1.0
  unfoldable pub train_transformer_forecaster :
      (M → M)
      → (train_loader val_loader : M → List (X × Y) × M) → (epochs patience : ℕ) → M
      → M × History F
  unfolding train run_epoch
  train_transformer_forecaster cosine train_loader val_loader epochs patience model =
      train (run_epoch (of_nat 1) (λ loss. cosine) train_loader val_loader) patience epochs model
