-- ===== src/Evaluation/Confusion.antt =====
-- The confusion matrix of `evaluate` in forecasting/evaluation/evaluator.py, and its trace.
use turbo_sh.Common.{
  ℕ, zero, suc, ◌+◌, ◌<◌, ◌==◌, ◌≡◌, refl, ap, sym, ◌∙◌, List, [], ◌∷◌, false, not, ◌||◌, ◌&&◌, ℤ,
  pos, eqb_ℤ, if◌then◌else◌, ltb, leb, length, replicate, Float, arith, All,
}
use turbo_sh.Markov.{tabulate}
use turbo_sh.Markov.Counts.{
  square, is_transition, tabulate-ext, square-ext, replicate-tabulate, count_pair-square,
}
use turbo_sh.Evaluation.{confusion, entry, trace_from, Rounding, evaluate}

-- The samples of true label `a` that were predicted as `b`.
abbrev pub samples : ℕ → ℕ → List ℤ → List ℤ → ℕ
samples a b [] preds = 0
samples a b (t ∷ truths) [] = 0
samples a b (t ∷ truths) (p ∷ preds) = is_transition a b t p + samples a b truths preds

-- The samples that were predicted right.
abbrev pub matches : List ℤ → List ℤ → ℕ
matches [] preds = 0
matches (t ∷ truths) [] = 0
matches (t ∷ truths) (p ∷ preds) = (if eqb_ℤ t p then 1 else 0) + matches truths preds

-- A label of one of `n` stages.
abbrev pub IsLabel : ℕ → ℤ → Type 0
IsLabel n t = (a : ℕ) × (t ≡ pos a) × (a < n)

confusion-square :
    (n : ℕ) (truths preds : List ℤ) (c : ℕ → ℕ → ℕ)
    → confusion n truths preds (square n c) ≡ square n (λ a b. samples a b truths preds + c a b)
unfolding confusion
confusion-square n [] preds c = square-ext n c _ (λ a b la lb. omega arith)
confusion-square n (t ∷ truths) [] c = square-ext n c _ (λ a b la lb. omega arith)
confusion-square n (t ∷ truths) (p ∷ preds) c =
    ap (confusion n truths preds) (count_pair-square n t p c)
    ∙ confusion-square n truths preds (λ a b. is_transition a b t p + c a b)
    ∙ square-ext n _ _ (λ a b la lb. omega arith)

entry-tabulate : (i n k : ℕ) (f : ℕ → ℕ) → k < n → entry (tabulate i n f) k ≡ f (i + k)
entry-tabulate i zero k f h = absurd (omega arith)
entry-tabulate i (suc n) zero f h = ap f (omega arith)
entry-tabulate i (suc n) (suc k) f h =
    entry-tabulate (suc i) n k f (omega arith) ∙ ap f (omega arith)

-- `f i + … ` over `n` places from `i` on.
abbrev sum_range : ℕ → ℕ → (ℕ → ℕ) → ℕ
sum_range i zero f = 0
sum_range i (suc n) f = f i + sum_range (suc i) n f

trace-square :
    (n i m : ℕ) (c : ℕ → ℕ → ℕ)
    → i + m ≡ n
    → trace_from i (tabulate i m (λ a. tabulate 0 n (c a))) ≡ sum_range i m (λ a. c a a)
unfolding trace_from
trace-square n i zero c e = refl
trace-square n i (suc m) c e =
    let place : c i (0 + i) ≡ c i i = ap (c i) (omega arith) in
    omega
      (arith, entry-tabulate 0 n i (c i) (omega arith), trace-square n (suc i) m c (omega arith))

sum_range-add :
    (i n : ℕ) (f g : ℕ → ℕ) → sum_range i n (λ a. f a + g a) ≡ sum_range i n f + sum_range i n g
sum_range-add i zero f g = omega arith
sum_range-add i (suc n) f g = omega (arith, sum_range-add (suc i) n f g)

diagonal :
    (i n x y : ℕ)
    → sum_range i n (λ a. is_transition a a (pos x) (pos y))
      ≡ (if leb i x && (ltb x (i + n) && (x == y)) then 1 else 0)
diagonal i zero x y = ground arith
diagonal i (suc n) x y = ground (arith, diagonal (suc i) n x y)

sum_range-zero : (i n : ℕ) → sum_range i n (λ a. 0) ≡ 0
sum_range-zero i zero = refl
sum_range-zero i (suc n) = omega (arith, sum_range-zero (suc i) n)

trace-matches :
    (n : ℕ) (truths preds : List ℤ)
    → All (IsLabel n) truths
    → All (IsLabel n) preds
    → sum_range 0 n (λ a. samples a a truths preds) ≡ matches truths preds
trace-matches n [] preds ts ps = sum_range-zero 0 n
trace-matches n (t ∷ truths) [] ts ps = sum_range-zero 0 n
trace-matches n (t ∷ truths) (p ∷ preds) ts ps =
    let (x, ex, lx) = ts.0 in
    let (y, ey, ly) = ps.0 in
    let one : sum_range 0 n (λ a. is_transition a a t p) ≡ (if eqb_ℤ t p then 1 else 0) =
      rw (ex, ey) (diagonal 0 n x y ∙ ground arith) in
    sum_range-add 0 n (λ a. is_transition a a t p) (λ a. samples a a truths preds)
    ∙ omega (arith, one, trace-matches n truths preds ts.1 ps.1)

module _ {ℓ} {F : Type ℓ} ⦃f : Float F⦄ (num : Rounding F) where
  -- For labels of the `n` stages, as many predictions as true labels and at least one, each entry
  -- of the confusion matrix is the number of samples with that true and that predicted label, and
  -- the accuracy is the rounded share of the samples that were predicted right.
  pub evaluate-samples :
      (n step_seconds : ℕ) (t : ℤ) (truths preds : List ℤ) (lead_times : List ℕ)
      → length preds ≡ length (t ∷ truths)
      → All (IsLabel n) (t ∷ truths)
      → All (IsLabel n) preds
      → let m = evaluate num n step_seconds (t ∷ truths) preds lead_times in
        (m.confusion_matrix ≡ square n (λ a b. samples a b (t ∷ truths) preds))
        × (m.accuracy
            ≡ num.round_to 4
                (f.div (f.of_nat (matches (t ∷ truths) preds)) (f.of_nat (length preds))))
        × (m.total_samples ≡ length preds)
  unfolding evaluate
  evaluate-samples n step_seconds t truths preds lead_times e ts ps =
      let total = length (t ∷ truths) in
      let guard : ((total == 0) || not (total == length preds)) ≡ false = ground arith in
      let cm : confusion n (t ∷ truths) preds (replicate n (replicate n 0))
          ≡ square n (λ a b. samples a b (t ∷ truths) preds) =
        ap (confusion n (t ∷ truths) preds) (
          replicate-tabulate (replicate n 0) 0 n
          ∙ tabulate-ext 0 n _ _ (λ a lo hi. replicate-tabulate 0 0 n))
        ∙ confusion-square n (t ∷ truths) preds (λ a b. 0)
        ∙ square-ext n _ _ (λ a b la lb. omega arith) in
      let hits : trace_from 0 (confusion n (t ∷ truths) preds (replicate n (replicate n 0)))
          ≡ matches (t ∷ truths) preds =
        ap (trace_from 0) cm
        ∙ trace-square n 0 n (λ a b. samples a b (t ∷ truths) preds) (omega arith)
        ∙ trace-matches n (t ∷ truths) preds ts ps in
      rw guard (cm, λ j. num.round_to 4 (f.div (f.of_nat (hits j)) (f.of_nat (sym e j))), sym e)
