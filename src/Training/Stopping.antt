-- ===== src/Training/Stopping.antt =====
-- Early stopping in forecasting/train_lstm.py and forecasting/train_transformer.py.
use turbo_sh.Common.{
  ℕ, zero, suc, ◌+◌, ◌≤◌, ◌<◌, ◌≡◌, refl, sym, ap, ◌∙◌, [], ◌∷◌, ◌++◌, true, false, none, some, leb,
  Float, IsNumber, IsOrdered, le_of_not-lt, le_of-lt, Bool-cases, leb→le, if◌then◌else◌, ltb,
  ltb→lt, le_of_not-ltb, ◌⊎◌, inl, inr, arith,
}
use mathlib.Core.Path.{subst, subst⁻¹}
use turbo_sh.Markov.{tabulate}
use turbo_sh.Training.{
  Trainer, Epoch, Progress, after_epoch, run_epochs, fresh, restored, stops, train,
}

tabulate-append {ℓ} :
    {A : Type ℓ} (i k j : ℕ) (g : ℕ → A)
    → i + k ≡ j
    → tabulate i k g ++ g j ∷ [] ≡ tabulate i (suc k) g
tabulate-append i zero j g eq = ap (λ t. g t ∷ []) (omega arith)
tabulate-append i (suc k) j g eq = ap (◌∷◌ (g i)) (tabulate-append (suc i) k j g (omega arith))

the_sum : (k n : ℕ) → suc k + n ≡ k + suc n
the_sum k n = omega arith

false≢true : false ≡ true → ⊥
false≢true h = ground arith

zero_of-lt : (j : ℕ) → j < 1 → 0 ≡ j
zero_of-lt j lt = omega arith

lt-or-last : (j k : ℕ) → j < suc k → (j < k) ⊎ (k ≡ j)
lt-or-last j k lt = elim (Bool-cases (ltb j k)) [
  | inl less ↦ inl (ltb→lt j k less)
  | inr not_less ↦ inr (omega (arith, le_of_not-ltb j k not_less))
]

module _ {ℓ} {F M : Type ℓ} (epoch : M → Epoch F M) (model : M) where
  -- The model before epoch `k`, counted from 0, and the validation loss of that epoch.
  abbrev pub before : ℕ → M
  before zero = model
  before (suc k) = (epoch (before k)).model

  abbrev pub loss : ℕ → F
  loss k = (epoch (before k)).epoch_val_loss

module _ {ℓ} {F M W X Y L : Type ℓ} ⦃f : Float F⦄ (ordered : IsOrdered F)
    (trainer : Trainer F M W X Y L) (horizon : ℕ) (epoch : M → Epoch F M) (model : M) where
  -- Of `k` epochs, `i` is the best, and what is kept is of it.
  abbrev IsBest : ℕ → Progress F M W → ℕ → Type ℓ
  IsBest k p i =
      (i < k)
      × (p.best_val_loss ≡ loss epoch model i)
      × (p.best_weights ≡ some (trainer.state_dict (before epoch model (suc i))))
      × (suc i + p.epochs_no_improve ≡ k)
      × ((j : ℕ) → j < k → f.le (loss epoch model i) (loss epoch model j) ≡ true)

  -- After `k` epochs, one of which is the best.
  abbrev IsAfter : ℕ → Progress F M W → Type ℓ
  IsAfter k p =
      (p.model ≡ before epoch model k)
      × (p.history.val_loss ≡ tabulate 0 k (loss epoch model))
      × (i : ℕ) × IsBest k p i

  loss-IsNumber :
      (k : ℕ) → f.lt (loss epoch model k) trainer.inf ≡ true → IsNumber (loss epoch model k)
  loss-IsNumber k finite = (ordered.number_of_lt (loss epoch model k) trainer.inf finite).0

  first_epoch :
      f.lt (loss epoch model 0) trainer.inf ≡ true
      → IsAfter 1 (after_epoch trainer horizon (epoch model) (fresh trainer horizon model))
  unfolding after_epoch
  first_epoch finite = rw finite (
    refl,
    refl,
    0,
    (
      omega arith,
      refl,
      refl,
      omega arith,
      λ j lt.
          subst (λ j'. f.le (loss epoch model 0) (loss epoch model j') ≡ true) (zero_of-lt j lt)
            (loss-IsNumber 0 finite),
    ),
  )

  -- A loss that is at most each of the losses so far, and the next one.
  least-suc :
      (k : ℕ) (x : F)
      → ((j : ℕ) → j < k → f.le x (loss epoch model j) ≡ true)
      → f.le x (loss epoch model k) ≡ true
      → (j : ℕ) → j < suc k
      → f.le x (loss epoch model j) ≡ true
  least-suc k x least last j lt = elim (lt-or-last j k lt) [
    | inl less ↦ least j less
    | inr same ↦ subst (λ t. f.le x (loss epoch model t) ≡ true) same last
  ]

  -- An epoch that improves is the best, and otherwise the best stays.
  next_epoch :
      (k : ℕ) (p : Progress F M W)
      → ((j : ℕ) → f.lt (loss epoch model j) trainer.inf ≡ true)
      → p.history.val_loss ≡ tabulate 0 k (loss epoch model)
      → (i : ℕ) → IsBest k p i
      → IsAfter (suc k) (after_epoch trainer horizon (epoch (before epoch model k)) p)
  unfolding after_epoch
  next_epoch k p finite logs i (i_lt, best_eq, weights_eq, count, least) =
      let logs' : p.history.val_loss ++ loss epoch model k ∷ []
          ≡ tabulate 0 (suc k) (loss epoch model) =
        ap (λ xs. xs ++ loss epoch model k ∷ []) logs
        ∙ tabulate-append 0 k k (loss epoch model) (omega arith) in
      elim (Bool-cases (f.lt (loss epoch model k) p.best_val_loss)) [
        | inl better ↦
            let better' : f.lt (loss epoch model k) (loss epoch model i) ≡ true =
              sym (ap (f.lt (loss epoch model k)) best_eq) ∙ better in
            let below : f.le (loss epoch model k) (loss epoch model i) ≡ true =
              le_of-lt ordered (loss epoch model k) (loss epoch model i)
                (loss-IsNumber k (finite k)) (loss-IsNumber i (finite i)) better' in
            rw better (
              refl,
              logs',
              k,
              (
                omega arith,
                refl,
                refl,
                omega arith,
                least-suc k (loss epoch model k)
                    (λ j lt.
                      ordered.le_trans (loss epoch model k) (loss epoch model i)
                        (loss epoch model j) below (least j lt))
                    (loss-IsNumber k (finite k)),
              ),
            )
        | inr worse ↦
            let worse' : f.lt (loss epoch model k) (loss epoch model i) ≡ false =
              sym (ap (f.lt (loss epoch model k)) best_eq) ∙ worse in
            let below : f.le (loss epoch model i) (loss epoch model k) ≡ true =
              le_of_not-lt ordered (loss epoch model k) (loss epoch model i)
                (loss-IsNumber k (finite k)) (loss-IsNumber i (finite i)) worse' in
            rw worse (
              refl,
              logs',
              i,
              (
                omega arith,
                best_eq,
                weights_eq,
                omega arith,
                least-suc k (loss epoch model i) least below,
              ),
            )
      ]

  -- What is known when the loop ends: all the epochs have run, or as many as the patience since the
  -- best one.
  abbrev Ended : ℕ → ℕ → Progress F M W → Type ℓ
  Ended patience epochs p =
      (k : ℕ) × IsAfter k p × ((k ≡ epochs) ⊎ ((k ≤ epochs) × (patience ≤ p.epochs_no_improve)))

  stops-patience :
      (patience : ℕ) (e : Epoch F M) (p : Progress F M W)
      → stops trainer horizon patience e p ≡ true
      → patience ≤ (after_epoch trainer horizon e p).epochs_no_improve
  unfolding after_epoch
  stops-patience patience e p stop =
      let late = leb patience (suc p.epochs_no_improve) in
      elim (Bool-cases (f.lt e.epoch_val_loss p.best_val_loss)) [
        | inl better ↦ absurd (false≢true (sym (ap (λ b. if b then false else late) better) ∙ stop))
        | inr worse ↦ rw worse (
            leb→le patience (suc p.epochs_no_improve)
              (sym (ap (λ b. if b then false else late) worse) ∙ stop))
      ]

  run_epochs-Ended :
      (patience epochs k : ℕ) (p : Progress F M W)
      → ((j : ℕ) → f.lt (loss epoch model j) trainer.inf ≡ true)
      → IsAfter k p
      → Ended patience (k + epochs) (run_epochs trainer horizon epoch patience epochs p)
  unfolding run_epochs
  run_epochs-Ended patience zero k p finite after = (k, after, inl (omega arith))
  run_epochs-Ended patience (suc epochs) k p finite (model_eq, logs, i, best) =
      let p' = after_epoch trainer horizon (epoch p.model) p in
      let after' : IsAfter (suc k) p' =
        subst⁻¹ (λ m. IsAfter (suc k) (after_epoch trainer horizon (epoch m) p)) model_eq
          (next_epoch k p finite logs i best) in
      elim (Bool-cases (stops trainer horizon patience (epoch p.model) p)) [
        | inl stop ↦
            rw (stop, run_epochs)
              (suc k, after', inr (omega arith, stops-patience patience (epoch p.model) p stop))
        | inr goes_on ↦
            rw (goes_on, run_epochs)
              (subst (λ n. Ended patience n (run_epochs trainer horizon epoch patience epochs p'))
                (the_sum k epochs) (run_epochs-Ended patience epochs (suc k) p' finite after'))
      ]

  restored-some :
      (p : Progress F M W) (w : W)
      → p.best_weights ≡ some w
      → restored trainer horizon p ≡ (trainer.load_state_dict w p.model, p.history)
  restored-some p w e =
      ap
        (λ o. elim o [
          | none ↦ (p.model, p.history)
          | some w' ↦ (trainer.load_state_dict w' p.model, p.history)
        ])
        e

  -- The first epoch improves, so the loop goes on after it.
  run_epochs-suc :
      (patience epochs : ℕ)
      → f.lt (loss epoch model 0) trainer.inf ≡ true
      → run_epochs trainer horizon epoch patience (suc epochs) (fresh trainer horizon model)
        ≡ run_epochs trainer horizon epoch patience epochs
            (after_epoch trainer horizon (epoch model) (fresh trainer horizon model))
  unfolding run_epochs
  run_epochs-suc patience epochs finite =
      let first = after_epoch trainer horizon (epoch model) (fresh trainer horizon model) in
      ap
        (λ b. elim (if b then false else leb patience 1) [
          | true ↦ first
          | false ↦ run_epochs trainer horizon epoch patience epochs first
        ])
        finite

  -- Training for at least one epoch, in which the validation loss is less than infinity before each
  -- epoch, ends after `k` epochs with the weights of the model after one of them: no epoch had a
  -- smaller validation loss than that one, the history has the losses of the `k` epochs in order, and
  -- either all epochs have run, or as many as the patience since that one.
  pub train-least :
      (patience epochs : ℕ)
      → ((j : ℕ) → f.lt (loss epoch model j) trainer.inf ≡ true)
      → let (trained, history) = train trainer horizon epoch patience (suc epochs) model in
        (k i : ℕ) × (i < k)
        × (trained
            ≡ trainer.load_state_dict
                (trainer.state_dict (before epoch model (suc i)))
                (before epoch model k))
        × (history.val_loss ≡ tabulate 0 k (loss epoch model))
        × ((j : ℕ) → j < k → f.le (loss epoch model i) (loss epoch model j) ≡ true)
        × ((k ≡ suc epochs) ⊎ ((k ≤ suc epochs) × (suc i + patience ≤ k)))
  unfolding train
  train-least patience epochs finite =
      let e = epoch model in
      let start = fresh trainer horizon model in
      let (k, (model_eq, logs, i, (i_lt, best_eq, weights_eq, count, least)), ended) =
        run_epochs-Ended patience epochs 1 (after_epoch trainer horizon e start) finite
          (first_epoch (finite 0)) in
      let last =
        run_epochs trainer horizon epoch patience epochs (after_epoch trainer horizon e start) in
      let best = trainer.state_dict (before epoch model (suc i)) in
      let result =
        ap (restored trainer horizon) (run_epochs-suc patience epochs (finite 0))
        ∙ restored-some last best weights_eq in
      (
        k,
        i,
        i_lt,
        ap (λ t. t.0) result ∙ ap (trainer.load_state_dict best) model_eq,
        ap (λ t. t.1.val_loss) result ∙ logs,
        least,
        elim ended [
          | inl all ↦ inl (omega arith)
          | inr (fewer, waited) ↦ inr (omega arith, omega arith)
        ],
      )
