-- ===== src/Tests/Models.antt =====
-- A hidden Markov model of two states, and the sums and products of small arrays.
use turbo_sh.Common.{
  ℕ, zero, suc, ◌≡◌, refl, ℤ, pos, List, [], ◌∷◌, map, Bool, true, false, Option, none, some,
  get_elem?, All, max, if◌then◌else◌, Bool-cases, inl, inr, Millionths, millionths,
  Millionths-IsOrdered, IsNumber, arith,
}
use mathlib.Core.Path.{subst⁻¹}
use turbo_sh.Markov.{NumPy}
use turbo_sh.Markov.Counts.{all_occurrences}
use turbo_sh.Hmm
use turbo_sh.Hmm.{
  Gaussian, HmmForecaster, log_start, log_trans, log_gaussian_pdf, smoothed, mean_of, vars_of,
  viterbi,
}
use turbo_sh.Hmm.Paths.{IsArgmax, IsAdditive, IsPath, path_score}
use turbo_sh.Hmm.Decoding.{IsDense, viterbi-greatest}
use turbo_sh.Hmm.Counting.{all_starts, used, all_labelled}
use turbo_sh.Hmm.Fitting.{fit-all_labelled}
use turbo_sh.DataLoader.{zip_with}
use turbo_sh.Tests.{hundredths}

-- The greatest entry, the first if there are several, with its index.
abbrev best : Millionths → List Millionths → ℕ × Millionths
best x [] = (0, x)
best x (y ∷ ys) = let (k, m) = best y ys in if millionths.le m x then (0, x) else (suc k, m)

abbrev pub argmax : List Millionths → ℕ
argmax [] = 0
argmax (x ∷ xs) = (best x xs).0

abbrev value : Millionths → ℕ
value none = 0
value (some n) = n

-- A sum with a NaN is NaN.
abbrev pub total : List Millionths → Millionths
total [] = some 0
total (x ∷ xs) = millionths.add x (total xs)

-- `none` where the sizes differ
abbrev pub product : List Millionths → List (List Millionths) → Option (List Millionths)
product [] [] = some []
product [] (row ∷ rows) = none
product (a ∷ v) [] = none
product (a ∷ []) (row ∷ []) = some (map (λ x. millionths.mul a x) row)
product (a ∷ []) (row ∷ row' ∷ rows) = none
product (a ∷ b ∷ v) (row ∷ rows) = elim (product (b ∷ v) rows) [
  | none ↦ none
  | some rest ↦ some (zip_with millionths.add (map (λ x. millionths.mul a x) row) rest)
]

abbrev pub numpy : NumPy Millionths
numpy = record { np_sum = total; np_argmax = argmax; vec_mat = product }

abbrev pub gaussian : Gaussian Millionths
gaussian = record {
  np_log = λ x. x;
  np_pi = hundredths 314;
  np_maximum = λ x y. some (max (value x) (value y));
  np_mean = λ rows. hundredths 100 ∷ [];
  np_var = λ rows. hundredths 25 ∷ [];
}

not_both : (b : Bool) → b ≡ true → b ≡ false → ⊥
not_both b h k = ground arith

weaken :
    (x m : Millionths) (xs : List Millionths)
    → millionths.le m x ≡ true
    → All (λ y. millionths.le y m ≡ true) xs
    → All (λ y. millionths.le y x ≡ true) xs
weaken x m [] le all = tt
weaken x m (y ∷ ys) le (here, all) =
    (Millionths-IsOrdered.le_trans y m x here le, weaken x m ys le all)

le_other :
    (m x : Millionths)
    → IsNumber m
    → IsNumber x
    → millionths.le m x ≡ false
    → millionths.le x m ≡ true
le_other m x m_num x_num not_le = elim (Millionths-IsOrdered.le_total m x m_num x_num) [
  | inl le ↦ absurd (not_both (millionths.le m x) le not_le)
  | inr ge ↦ ge
]

abbrev IsGreatest : List Millionths → ℕ × Millionths → Type 0
IsGreatest xs top =
    (get_elem? xs top.0 ≡ some top.1) × IsNumber top.1 × All (λ y. millionths.le y top.1 ≡ true) xs

best-IsGreatest :
    (x : Millionths) (xs : List Millionths)
    → All IsNumber (x ∷ xs)
    → IsGreatest (x ∷ xs) (best x xs)
best-IsGreatest x [] (num, _) = (refl, num, (num, tt))
best-IsGreatest x (y ∷ ys) (num, nums) =
    let (found, m_num, all) = best-IsGreatest y ys nums in
    let (k, m) = best y ys in
    elim (Bool-cases (millionths.le m x)) [
      | inl first ↦
          subst⁻¹ (λ b. IsGreatest (x ∷ y ∷ ys) (if b then (0, x) else (suc k, m))) first
            (refl, num, (num, weaken x m (y ∷ ys) first all))
      | inr later ↦
          subst⁻¹ (λ b. IsGreatest (x ∷ y ∷ ys) (if b then (0, x) else (suc k, m))) later
            (found, m_num, (le_other m x m_num num later, all))
    ]

some-IsNumber : (n : ℕ) → IsNumber (some n)
some-IsNumber n = ground arith

pub argmax-IsArgmax : IsArgmax argmax
argmax-IsArgmax = record {
  argmax-found =
      λ x xs nums. let (found, _, all) = best-IsGreatest x xs nums in ((best x xs).1, found, all);
}

add-IsNumber : (x z : Millionths) → IsNumber x → IsNumber z → IsNumber (millionths.add x z)
add-IsNumber (some a) (some b) h k = ground arith
add-IsNumber none z h k = absurd (not_both false h refl)
add-IsNumber (some a) none h k = absurd (not_both false k refl)

add_keeps :
    (x y z : Millionths)
    → IsNumber z
    → millionths.le x y ≡ true
    → millionths.le (millionths.add x z) (millionths.add y z) ≡ true
add_keeps (some a) (some b) (some c) num le = ground arith
add_keeps none y z num le = absurd (not_both false le refl)
add_keeps (some a) none z num le = absurd (not_both false le refl)
add_keeps (some a) (some b) none num le = absurd (not_both false num refl)

IsNumber-IsAdditive : IsAdditive {F = Millionths} IsNumber
IsNumber-IsAdditive = record {
  number_of_finite = λ x h. h;
  add-number = add-IsNumber;
  add_mono = add_keeps;
}

abbrev pub weather : HmmForecaster Millionths
weather = record {
  n_states = 2;
  n_features = 1;
  start_prob = λ s. hundredths (elim s [ zero ↦ 80 | suc _ ↦ 20 ]);
  transition_matrix = λ s t. hundredths (elim t [ zero ↦ 30 | suc _ ↦ 70 ]);
  means = λ s. hundredths 100 ∷ [];
  vars = λ s. hundredths 100 ∷ [];
  is_fitted = true;
}

weather-IsDense : (n : ℕ) → IsDense numpy gaussian (λ x. IsNumber x) weather (hundredths n ∷ [])
unfolding log_gaussian_pdf
weather-IsDense n s lt = (_, refl, some-IsNumber _)

viterbi-greatest_example :
    let seen = (hundredths 100 ∷ []) ∷ (hundredths 200 ∷ []) ∷ [] in
    (found : List ℕ) × (viterbi numpy gaussian weather seen ≡ some found)
    × IsPath 2 2 found
    × (millionths.le
          (path_score numpy gaussian weather seen (1 ∷ 0 ∷ []))
          (path_score numpy gaussian weather seen found)
        ≡ true)
viterbi-greatest_example =
    viterbi-greatest numpy gaussian argmax-IsArgmax IsNumber-IsAdditive Millionths-IsOrdered weather
      (omega arith) (λ s t s_lt t_lt. some-IsNumber _) (hundredths 100 ∷ [])
      ((hundredths 200 ∷ []) ∷ []) (1 ∷ 0 ∷ []) (weather-IsDense 100, (weather-IsDense 200, tt))
      (λ s lt. some-IsNumber _) (refl, (omega arith, (omega arith, tt)))

abbrev obs_seqs : List (List (List Millionths))
obs_seqs = ((hundredths 100 ∷ []) ∷ (hundredths 300 ∷ []) ∷ []) ∷ ((hundredths 50 ∷ []) ∷ []) ∷ []

abbrev st_seqs : List (List ℤ)
st_seqs = (pos 0 ∷ pos 1 ∷ []) ∷ (pos 1 ∷ pos 1 ∷ []) ∷ []

fit-all_labelled_example :
    let fitted = Hmm.fit numpy gaussian obs_seqs st_seqs (hundredths 100) (hundredths 1) weather in
    let seqs = used obs_seqs st_seqs in
    let observed = all_labelled 1 obs_seqs st_seqs in
    (fitted.start_prob 1 ≡ smoothed numpy gaussian 2 (hundredths 100) (λ s. all_starts s seqs) 1)
    × (fitted.transition_matrix 1 0
        ≡ smoothed numpy gaussian 2 (hundredths 100) (λ t. all_occurrences 1 t seqs) 0)
    × (fitted.means 1 ≡ mean_of numpy gaussian (weather.means 1) observed)
    × (fitted.vars 1 ≡ vars_of numpy gaussian (hundredths 1) (weather.vars 1) observed)
fit-all_labelled_example =
    fit-all_labelled numpy gaussian ((hundredths 100 ∷ []) ∷ (hundredths 300 ∷ []) ∷ [])
      (((hundredths 50 ∷ []) ∷ []) ∷ []) (pos 0 ∷ pos 1 ∷ []) ((pos 1 ∷ pos 1 ∷ []) ∷ [])
      (hundredths 100) (hundredths 1) weather 1 0 (omega arith) (omega arith)
