-- ===== src/Markov/Counts.antt =====
-- The counts of `fit` in forecasting/models/markov_chain.py.
use turbo_sh.Common.{
  ℕ, zero, suc, ◌+◌, ◌≤◌, ◌<◌, ◌==◌, ◌≡◌, refl, ap, ◌∙◌, List, [], ◌∷◌, map, ℤ, pos, negsuc, eqb_ℤ,
  ◌&&◌, if◌then◌else◌, ltb, replicate, arith, Float, Bool-cases, inl, inr,
}
use mathlib.Core.Path.{ap₂}
use turbo_sh.Markov.{
  tabulate, modify, count_pair, count_sequence, count_sequences, MarkovChain, NumPy, smoothed_row,
  fit,
}

pub tabulate-ext {ℓ} :
    {A : Type ℓ} (i n : ℕ) (f g : ℕ → A)
    → ((x : ℕ) → i ≤ x → x < i + n → f x ≡ g x)
    → tabulate i n f ≡ tabulate i n g
tabulate-ext i zero f g h = refl
tabulate-ext i (suc n) f g h =
    ap₂ ◌∷◌ (h i (omega arith) (omega arith))
      (tabulate-ext (suc i) n f g (λ x lo hi. h x (omega arith) (omega arith)))

modify-tabulate {ℓ} :
    {A : Type ℓ} (g : A → A) (f : ℕ → A) (i n k : ℕ)
    → modify k g (tabulate i n f) ≡ tabulate i n (λ x. if x == i + k then g (f x) else f x)
modify-tabulate g f i zero k = refl
modify-tabulate g f i (suc n) zero =
    ap₂ ◌∷◌ (ground arith) (
      tabulate-ext (suc i) n f (λ x. if x == i + 0 then g (f x) else f x) (λ x lo hi. ground arith))
modify-tabulate g f i (suc n) (suc k) = ap₂ ◌∷◌ (ground arith) (
    modify-tabulate g f (suc i) n k
    ∙ tabulate-ext (suc i) n _ (λ x. if x == i + suc k then g (f x) else f x)
        (λ x lo hi. ground arith))

pub replicate-tabulate {ℓ} : {A : Type ℓ} (a : A) (i n : ℕ) → replicate n a ≡ tabulate i n (λ x. a)
replicate-tabulate a i zero = refl
replicate-tabulate a i (suc n) = ap (◌∷◌ a) (replicate-tabulate a (suc i) n)

-- A square of numbers.
abbrev pub square : ℕ → (ℕ → ℕ → ℕ) → List (List ℕ)
square n c = tabulate 0 n (λ a. tabulate 0 n (c a))

-- One transition, from `a` to `b`.
abbrev pub is_transition : ℕ → ℕ → ℤ → ℤ → ℕ
is_transition a b s t = if eqb_ℤ s (pos a) && eqb_ℤ t (pos b) then 1 else 0

-- How often `b` follows `a` in a sequence, and in several sequences.
abbrev pub occurrences : ℕ → ℕ → List ℤ → ℕ
occurrences a b [] = 0
occurrences a b (s ∷ []) = 0
occurrences a b (s ∷ t ∷ seq) = is_transition a b s t + occurrences a b (t ∷ seq)

abbrev pub all_occurrences : ℕ → ℕ → List (List ℤ) → ℕ
all_occurrences a b [] = 0
all_occurrences a b (seq ∷ seqs) = occurrences a b seq + all_occurrences a b seqs

pub square-ext :
    (n : ℕ) (c d : ℕ → ℕ → ℕ)
    → ((a b : ℕ) → a < n → b < n → c a b ≡ d a b)
    → square n c ≡ square n d
square-ext n c d h =
    tabulate-ext 0 n (λ a. tabulate 0 n (c a)) (λ a. tabulate 0 n (d a))
      (λ a lo hi. tabulate-ext 0 n (c a) (d a) (λ b lo' hi'. h a b (omega arith) (omega arith)))

modify-square :
    (n i j : ℕ) (c : ℕ → ℕ → ℕ)
    → modify i (modify j suc) (square n c)
      ≡ square n (λ a b. is_transition a b (pos i) (pos j) + c a b)
modify-square n i j c =
    modify-tabulate (modify j suc) (λ a. tabulate 0 n (c a)) 0 n i
    ∙ tabulate-ext 0 n _ _ (λ a lo hi. elim (Bool-cases (a == 0 + i)) [
      | inl here ↦
          rw here
            (modify-tabulate suc (c a) 0 n j ∙ tabulate-ext 0 n _ _ (λ b lo' hi'. ground arith))
      | inr away ↦ rw away (tabulate-ext 0 n _ _ (λ b lo' hi'. ground arith))
    ])

pub count_pair-square :
    (n : ℕ) (s t : ℤ) (c : ℕ → ℕ → ℕ)
    → count_pair n s t (square n c) ≡ square n (λ a b. is_transition a b s t + c a b)
unfolding count_pair
count_pair-square n (negsuc s) t c = square-ext n c _ (λ a b la lb. ground arith)
count_pair-square n (pos s) (negsuc t) c = elim (Bool-cases (ltb s n)) [
  | inl valid ↦ rw (valid, count_pair) (square-ext n c _ (λ a b la lb. ground arith))
  | inr invalid ↦ rw (invalid, count_pair) (square-ext n c _ (λ a b la lb. ground arith))
]
count_pair-square n (pos s) (pos t) c = elim (Bool-cases (ltb s n)) [
  | inr invalid ↦ rw (invalid, count_pair) (square-ext n c _ (λ a b la lb. ground arith))
  | inl valid ↦ elim (Bool-cases (ltb t n)) [
    | inr invalid ↦ rw (valid, invalid, count_pair) (square-ext n c _ (λ a b la lb. ground arith))
    | inl both ↦ rw (valid, both, count_pair) (modify-square n s t c)
  ]
]

count_sequence-square :
    (n : ℕ) (seq : List ℤ) (c : ℕ → ℕ → ℕ)
    → count_sequence n seq (square n c) ≡ square n (λ a b. occurrences a b seq + c a b)
unfolding count_sequence
count_sequence-square n [] c = square-ext n c _ (λ a b la lb. omega arith)
count_sequence-square n (s ∷ []) c = square-ext n c _ (λ a b la lb. omega arith)
count_sequence-square n (s ∷ t ∷ seq) c =
    ap (count_sequence n (t ∷ seq)) (count_pair-square n s t c)
    ∙ count_sequence-square n (t ∷ seq) (λ a b. is_transition a b s t + c a b)
    ∙ square-ext n _ _ (λ a b la lb. omega arith)

count_sequences-square :
    (n : ℕ) (seqs : List (List ℤ)) (c : ℕ → ℕ → ℕ)
    → count_sequences n seqs (square n c) ≡ square n (λ a b. all_occurrences a b seqs + c a b)
unfolding count_sequences
count_sequences-square n [] c = square-ext n c _ (λ a b la lb. omega arith)
count_sequences-square n (seq ∷ seqs) c =
    ap (count_sequences n seqs) (count_sequence-square n seq c)
    ∙ count_sequences-square n seqs (λ a b. occurrences a b seq + c a b)
    ∙ square-ext n _ _ (λ a b la lb. omega arith)

module _ {ℓ} {F : Type ℓ} ⦃f : Float F⦄ (np : NumPy F) where
  -- After `fit` each row of the transition matrix is the smoothed and normalised row of how often
  -- each valid stage follows that stage in the sequences: each transition counts once, those from
  -- or to an invalid stage do not count, and nothing is left of what was fitted before.
  pub fit-all_occurrences :
      (seqs : List (List ℤ)) (alpha : F) (m : MarkovChain F)
      → (fit np seqs alpha m).transition_matrix
        ≡ map (smoothed_row np alpha) (square m.n_states (λ a b. all_occurrences a b seqs))
  unfolding fit
  fit-all_occurrences seqs alpha m =
      let n = m.n_states in
      ap (map (smoothed_row np alpha)) (
        ap (count_sequences n seqs) (
          replicate-tabulate (replicate n 0) 0 n
          ∙ tabulate-ext 0 n _ _ (λ a lo hi. replicate-tabulate 0 0 n))
        ∙ count_sequences-square n seqs (λ a b. 0)
        ∙ square-ext n _ _ (λ a b la lb. omega arith))
