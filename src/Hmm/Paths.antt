-- ===== src/Hmm/Paths.antt =====
-- The paths of states that `viterbi` of forecasting/models/hmm_model.py chooses from, and what it
-- relies on: NumPy's `argmax`, and the additions of IEEE 754.
use turbo_sh.Common.{
  ℕ, zero, suc, ◌+◌, ◌<◌, ◌≡◌, refl, ap, ◌∙◌, List, [], ◌∷◌, ◌++◌, true, some, length, get_elem?,
  All, Float, IsNumber, arith,
}
use mathlib.Core.Path.{subst}
use turbo_sh.Markov.{NumPy, tabulate}
use turbo_sh.Hmm.{Gaussian, HmmForecaster, log_trans, log_emit, first_row}

-- The index that `argmax` gives is in the array, and no entry is greater than the one there.
pub record IsArgmax {ℓ} {F : Type ℓ} ⦃f : Float F⦄ (argmax : List F → ℕ) : Type ℓ where
  pub argmax-found :
      (x : F) (xs : List F)
      → All IsNumber (x ∷ xs)
      → (m : F) × (get_elem? (x ∷ xs) (argmax (x ∷ xs)) ≡ some m)
        × All (λ y. f.le y m ≡ true) (x ∷ xs)

-- Adding a finite value keeps the order, and gives no NaN.
pub record IsAdditive {ℓ} {F : Type ℓ} ⦃f : Float F⦄ (IsFinite : F → Type 0) : Type ℓ where
  pub number_of_finite : (x : F) → IsFinite x → IsNumber x
  pub add-number : (x z : F) → IsNumber x → IsFinite z → IsNumber (f.add x z)
  pub add_mono : (x y z : F) → IsFinite z → f.le x y ≡ true → f.le (f.add x z) (f.add y z) ≡ true

abbrev pub IsPath : ℕ → ℕ → List ℕ → Type 0
IsPath n len path = (length path ≡ len) × All (λ s. s < n) path

-- The last state of a path that starts at `p`.
abbrev pub final : ℕ → List ℕ → ℕ
final p [] = p
final p (s ∷ path) = final s path

get_elem?-tabulate {ℓ} :
    {A : Type ℓ} (i n k : ℕ) (g : ℕ → A) (a : A)
    → get_elem? (tabulate i n g) k ≡ some a
    → (k < n) × (a ≡ g (i + k))
get_elem?-tabulate i zero k g a e = ground arith
get_elem?-tabulate i (suc n) zero g a e = ground arith
get_elem?-tabulate i (suc n) (suc k) g a e =
    let (lt, eq) = get_elem?-tabulate (suc i) n k g a e in (omega arith, eq ∙ ap g (omega arith))

All-tabulate {ℓ κ} :
    {A : Type ℓ} (P : A → Type κ) (i n : ℕ) (g : ℕ → A)
    → ((k : ℕ) → k < i + n → P (g k))
    → All P (tabulate i n g)
All-tabulate P i zero g h = tt
All-tabulate P i (suc n) g h =
    (h i (omega arith), All-tabulate P (suc i) n g (λ k lt. h k (omega arith)))

All-tabulate_get {ℓ κ} :
    {A : Type ℓ} (P : A → Type κ) (i n k j : ℕ) (g : ℕ → A)
    → All P (tabulate i n g)
    → k < n
    → i + k ≡ j
    → P (g j)
All-tabulate_get P i zero k j g all lt eq = absurd (omega arith)
All-tabulate_get P i (suc n) zero j g (here, rest) lt eq = subst (λ t. P (g t)) (omega arith) here
All-tabulate_get P i (suc n) (suc k) j g (here, rest) lt eq =
    All-tabulate_get P (suc i) n k j g rest (omega arith) (omega arith)

module _ {ℓ} {F : Type ℓ} ⦃f : Float F⦄ {argmax : List F → ℕ} (law : IsArgmax argmax) where
  -- `argmax` over the states.
  pub argmax-tabulate :
      (n : ℕ) (g : ℕ → F)
      → 0 < n
      → ((k : ℕ) → k < n → IsNumber (g k))
      → (argmax (tabulate 0 n g) < n)
        × ((k : ℕ) → k < n → f.le (g k) (g (argmax (tabulate 0 n g))) ≡ true)
  argmax-tabulate zero g some_state numbers = absurd (omega arith)
  argmax-tabulate (suc n) g some_state numbers =
      let row = tabulate 0 (suc n) g in
      let (m, found, greatest) =
        law.argmax-found (g 0) (tabulate 1 n g)
          (All-tabulate (λ x. IsNumber x) 0 (suc n) g (λ k lt. numbers k (omega arith))) in
      let (lt, eq) = get_elem?-tabulate 0 (suc n) (argmax row) g m found in
      (
        lt,
        λ k k_lt.
            subst (λ t. f.le (g k) t ≡ true) (eq ∙ ap g (omega arith))
              (All-tabulate_get (λ y. f.le y m ≡ true) 0 (suc n) k k g greatest k_lt (omega arith)),
      )

module _ {ℓ} {F : Type ℓ} ⦃f : Float F⦄ (np : NumPy F) (gauss : Gaussian F) where
  -- One step of a path: the transition and the emission, added in the order of the code.
  abbrev pub step_score : HmmForecaster F → F → ℕ → List F → ℕ → F
  step_score hmm x p obs s =
      f.add (f.add x (log_trans np gauss hmm p s)) (log_emit np gauss hmm obs s)

  abbrev pub score_from : HmmForecaster F → F → ℕ → List (List F) → List ℕ → F
  score_from hmm x p [] path = x
  score_from hmm x p (obs ∷ observations) [] = x
  score_from hmm x p (obs ∷ observations) (s ∷ path) =
      score_from hmm (step_score hmm x p obs s) s observations path

  -- The log-probability of a path and the observations, as the code adds it up.
  abbrev pub path_score : HmmForecaster F → List (List F) → List ℕ → F
  path_score hmm (obs ∷ observations) (s ∷ path) =
      score_from hmm (first_row np gauss hmm obs s) s observations path
  path_score hmm _ _ = f.of_nat 0

  pub score_from-append :
      (hmm : HmmForecaster F) (x : F) (p : ℕ) (seen : List (List F)) (path : List ℕ) (obs : List F)
      (s : ℕ)
      → length path ≡ length seen
      → score_from hmm x p (seen ++ obs ∷ []) (path ++ s ∷ [])
        ≡ step_score hmm (score_from hmm x p seen path) (final p path) obs s
  score_from-append hmm x p [] [] obs s same = refl
  score_from-append hmm x p [] (t ∷ path) obs s same = absurd (omega arith)
  score_from-append hmm x p (o ∷ seen) [] obs s same = absurd (omega arith)
  score_from-append hmm x p (o ∷ seen) (t ∷ path) obs s same =
      score_from-append hmm (step_score hmm x p o t) t seen path obs s (omega arith)

pub final-append : (p : ℕ) (path : List ℕ) (s : ℕ) → final p (path ++ s ∷ []) ≡ s
final-append p [] s = refl
final-append p (t ∷ path) s = final-append t path s

pub final-lt : (n p : ℕ) (path : List ℕ) → p < n → All (λ s. s < n) path → final p path < n
final-lt n p [] lt all = lt
final-lt n p (s ∷ path) lt (here, rest) = final-lt n s path here rest
