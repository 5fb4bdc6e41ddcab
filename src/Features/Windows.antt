-- ===== src/Features/Windows.antt =====
-- The loop over the window ends in pipeline/feature_extraction/feature_extractor.py.
use turbo_sh.Common.{
  ℕ, ◌+◌, ◌≤◌, ◌<◌, ◌≡◌, ◌⊎◌, inl, inr, List, [], ◌∷◌, Bool, true, false, some, if◌then◌else◌, ltb,
  le_of_not-ltb, arith, Bool-cases, Option-cases,
}
use turbo_sh.Features.{in_window, has_reqs, first_after, next_end}

-- `t` is one of the times.
abbrev pub In : ℕ → List ℕ → Type 0
In t [] = ⊥
In t (x ∷ xs) = (t ≡ x) ⊎ In t xs

-- The times rise, from `lo` on.
abbrev pub IsRising : ℕ → List ℕ → Type 0
IsRising lo [] = Unit
IsRising lo (x ∷ xs) = (lo ≤ x) × IsRising x xs

-- One of the windows that end at `ends` holds a request at `t`.
abbrev pub has_window : ℕ → ℕ → List ℕ → Bool
has_window size t [] = false
has_window size t (w_end ∷ ends) = if in_window size w_end t then true else has_window size t ends

pub le_of_In : (lo t : ℕ) (times : List ℕ) → IsRising lo times → In t times → lo ≤ t
le_of_In lo t [] r i = absurd i
le_of_In lo t (x ∷ xs) r (inl e) = omega arith
le_of_In lo t (x ∷ xs) r (inr i) = omega (arith, le_of_In x t xs r.1 i)

pub has_reqs_of_In :
    (size w_end t : ℕ) (times : List ℕ)
    → In t times
    → in_window size w_end t ≡ true
    → has_reqs size w_end times ≡ true
unfolding has_reqs
has_reqs_of_In size w_end t [] i h = absurd i
has_reqs_of_In size w_end t (x ∷ xs) (inl e) h = ground arith
has_reqs_of_In size w_end t (x ∷ xs) (inr i) h = ground (arith, has_reqs_of_In size w_end t xs i h)

first_after-lt : (c n : ℕ) (times : List ℕ) → first_after c times ≡ some n → c < n
unfolding first_after
first_after-lt c n [] e = cc
first_after-lt c n (x ∷ xs) e = ground (arith, first_after-lt c n xs)

-- Of rising times the first one after `c` is not later than any other after `c`.
first_after-le :
    (c lo t : ℕ) (times : List ℕ)
    → IsRising lo times
    → In t times
    → c < t
    → (n : ℕ) × (first_after c times ≡ some n) × (n ≤ t)
unfolding first_after
first_after-le c lo t [] r i h = absurd i
first_after-le c lo t (x ∷ xs) r i h = elim (Bool-cases (ltb c x)) [
  | inl later ↦ (x, rw later, le_of_In x t (x ∷ xs) (omega arith, r.1) i)
  | inr earlier ↦ elim i [
    | inl here ↦ absurd (omega (arith, le_of_not-ltb _ _ earlier))
    | inr there ↦ let (n, e, le) = first_after-le c x t xs r.1 there h in (n, rw earlier e, le)
  ]
]

-- The loop always goes forward.
pub next_end-lt : (size step c : ℕ) (times : List ℕ) → 0 < step → c < next_end size step times c
unfolding next_end
next_end-lt size step c times h = elim (Option-cases (first_after c times)) [
  | inl last ↦ rw (last, next_end) (omega arith)
  | inr (n, e) ↦ rw (e, next_end) (ground (arith, first_after-lt c n times e))
]

-- It never goes past a step behind a request that is still to come.
pub next_end-le :
    (size step c lo t : ℕ) (times : List ℕ)
    → IsRising lo times
    → In t times
    → c < t
    → next_end size step times c ≤ t + step
unfolding next_end
next_end-le size step c lo t times r i h =
    let (n, e, le) = first_after-le c lo t times r i h in
    rw (e, next_end) (ground (arith, first_after-lt c n times e))
