-- ===== src/Labeler/Windows.antt =====
-- `label_sequence` of forecasting/state_labeler.py by windows of three raw labels.
use turbo_sh.Common.{
  ℕ, zero, suc, ◌+◌, ◌-◌, ◌≤◌, ◌<◌, ◌≡◌, refl, sym, ◌∙◌, ◌≢◌, ◌↔◌, ◌⊎◌, List, [], ◌∷◌, ◌++◌, map,
  get_elem?, some, none, replicate, arith, Float, All, inl, inr,
}
use native.Mathlib.Decide.{dec_lt}
use turbo_sh.Config.{AttackStage, surge, sustained}
use turbo_sh.NetworkState.{NetworkState}
use turbo_sh.Labeler.{label_state, label_sequence}
use turbo_sh.Labeler.Runs.{ahead, promote, promoted, replicate_shift, label_sequence-promote}

-- Index `k` lies in a window of three consecutive SURGE labels.
abbrev pub InSurgeWindow : List AttackStage → ℕ → Type 0
InSurgeWindow labels k =
    (i : ℕ) × (i ≤ k)
    × (k < i + 3)
    × (get_elem? labels i ≡ some surge)
    × (get_elem? labels (suc i) ≡ some surge)
    × (get_elem? labels (suc (suc i)) ≡ some surge)

surge-at :
    (b : ℕ) (ls : List AttackStage) (j : ℕ)
    → j < b + ahead ls
    → get_elem? (replicate b surge ++ ls) j ≡ some surge
surge-at zero [] j h = absurd (omega arith)
surge-at zero (surge ∷ ls) zero h = refl
surge-at zero (surge ∷ ls) (suc j) h = surge-at zero ls j (omega arith)
surge-at zero (l ∷ ls) j h = absurd (omega arith)
surge-at (suc b) ls zero h = refl
surge-at (suc b) ls (suc j) h = surge-at b ls j (omega arith)

le-ahead :
    (b : ℕ) (ls : List AttackStage) (m : ℕ)
    → ((j : ℕ) → b ≤ j → j < m → get_elem? (replicate b surge ++ ls) j ≡ some surge)
    → m ≤ b + ahead ls
le-ahead b ls zero h = omega arith
le-ahead zero [] (suc m) h = cc (h 0 (omega arith) (omega arith))
le-ahead zero (surge ∷ ls) (suc m) h =
    omega (arith, le-ahead zero ls m (λ j lo hi. h (suc j) (omega arith) (omega arith)))
le-ahead zero (l ∷ ls) (suc m) h = cc (h 0 (omega arith) (omega arith))
le-ahead (suc b) ls (suc m) h =
    omega (arith, le-ahead b ls m (λ j lo hi. h (suc j) (omega arith) (omega arith)))

at_boundary :
    (b : ℕ) (l : AttackStage) (ls : List AttackStage)
    → get_elem? (replicate b surge ++ l ∷ ls) b ≡ some l
at_boundary zero l ls = refl
at_boundary (suc b) l ls = at_boundary b l ls

behind :
    (b : ℕ) (l : AttackStage) (ls : List AttackStage) (i j : ℕ)
    → j ≡ suc b + i
    → get_elem? (replicate b surge ++ l ∷ ls) j ≡ get_elem? ls i
behind zero l ls i j e = let e' : j ≡ suc i = omega arith in rw e'
behind (suc b) l ls i zero e = absurd (omega arith)
behind (suc b) l ls i (suc j) e = behind b l ls i j (omega arith)

beyond : (b j : ℕ) → b ≤ j → get_elem? (replicate b surge ++ []) j ≡ none
beyond zero j h = refl
beyond (suc b) zero h = absurd (omega arith)
beyond (suc b) (suc j) h = beyond b j (omega arith)

promoted_iff : (n : ℕ) → (promoted n ≡ sustained) ↔ (3 ≤ n)
promoted_iff n = ground arith

in_window :
    (labels : List AttackStage) (i j : ℕ)
    → i ≤ j
    → j < i + 3
    → get_elem? labels i ≡ some surge
    → get_elem? labels (suc i) ≡ some surge
    → get_elem? labels (suc (suc i)) ≡ some surge
    → get_elem? labels j ≡ some surge
in_window labels i j lo hi x y z =
    let places : (j ≡ i) ⊎ ((j ≡ suc i) ⊎ (j ≡ suc (suc i))) = omega arith in
    elim places [ inl e ↦ rw e x | inr (inl e) ↦ rw e y | inr (inr e) ↦ rw e z ]

-- A SURGE with `b` of them before it.
here_window :
    (b : ℕ) (ls : List AttackStage) {k : ℕ}
    → k ≡ b
    → (promoted (b + suc (ahead ls)) ≡ sustained)
      ↔ InSurgeWindow (replicate b surge ++ surge ∷ ls) k
here_window b ls e = (
  λ long.
      let three = (promoted_iff _).0 long in
      (
        b - 2,
        omega arith,
        omega arith,
        surge-at b (surge ∷ ls) _ (omega arith),
        surge-at b (surge ∷ ls) _ (omega arith),
        surge-at b (surge ∷ ls) _ (omega arith),
      ),
  λ (i, lo, hi, x, y, z). (promoted_iff _).1 (
      omega (
        arith,
        le-ahead b (surge ∷ ls) (i + 3) λ j from to. in_window _ i j (omega arith) to x y z,
      )),
)

no_break :
    (b : ℕ) (l : AttackStage) (ls : List AttackStage) (i : ℕ)
    → l ≢ surge
    → i ≤ b
    → b < i + 3
    → get_elem? (replicate b surge ++ l ∷ ls) i ≡ some surge
    → get_elem? (replicate b surge ++ l ∷ ls) (suc i) ≡ some surge
    → get_elem? (replicate b surge ++ l ∷ ls) (suc (suc i)) ≡ some surge
    → ⊥
no_break b l ls i other lo hi x y z =
    other (ground (arith, in_window _ i b lo hi x y z, at_boundary b l ls))

past_break :
    (b : ℕ) (l : AttackStage) (ls : List AttackStage) {k j : ℕ}
    → l ≢ surge
    → j ≡ suc b + k
    → InSurgeWindow ls k ↔ InSurgeWindow (replicate b surge ++ l ∷ ls) j
past_break b l ls {k} {j} other e = (
  λ (i, lo, hi, x, y, z). (
    suc b + i,
    omega arith,
    omega arith,
    behind b l ls _ _ refl ∙ x,
    behind b l ls (suc i) _ (omega arith) ∙ y,
    behind b l ls (suc (suc i)) _ (omega arith) ∙ z,
  ),
  λ (i, lo, hi, x, y, z). elim (dec_lt b i) [
    | yes after ↦ (
      i - suc b,
      omega arith,
      omega arith,
      sym (behind b l ls (i - suc b) i (omega arith)) ∙ x,
      sym (behind b l ls (suc (i - suc b)) (suc i) (omega arith)) ∙ y,
      sym (behind b l ls (suc (suc (i - suc b))) (suc (suc i)) (omega arith)) ∙ z,
    )
    | no before ↦ absurd (no_break b l ls i other (omega arith) (omega arith) x y z)
  ],
)

promote-window :
    (b : ℕ) (ls : List AttackStage) (k : ℕ) {j : ℕ}
    → All (λ l. l ≢ sustained) ls
    → j ≡ b + k
    → (get_elem? (promote b ls) k ≡ some sustained) ↔ InSurgeWindow (replicate b surge ++ ls) j
promote-window b [] k {j} raw e =
    (λ h. cc, λ (i, lo, hi, x, y, z). cc (in_window _ i j lo hi x y z, beyond b j (omega arith)))
promote-window b (surge ∷ ls) zero {j} raw e =
    let (there, back) = here_window b ls {k = j} (omega arith) in
    (λ h. there (ground arith), λ w. rw (back w))
promote-window b (l ∷ ls) zero {j} raw e =
    let e' : j ≡ b = omega arith in
    (
      λ h. absurd (raw.0 (ground arith)),
      λ (i, lo, hi, x, y, z).
          absurd (no_break b l ls i (λ p. cc) (omega arith) (omega arith) x y z),
    )
promote-window b (surge ∷ ls) (suc k) {j} raw e =
    rw (replicate_shift b surge ls) (promote-window (suc b) ls k raw.1 (omega arith))
promote-window b (l ∷ ls) (suc k) {j} raw e =
    let (there, back) = past_break b l ls {k = k} {j = j} (λ p. cc) (omega arith) in
    let (from, to) = promote-window 0 ls k {j = k} raw.1 (omega arith) in
    (λ h. there (from h), λ w. to (back w))

promote-other :
    (b : ℕ) (ls : List AttackStage) (k : ℕ)
    → (get_elem? (promote b ls) k ≢ some sustained)
    → get_elem? (promote b ls) k ≡ get_elem? ls k
promote-other b [] k h = refl
promote-other b (surge ∷ ls) zero h = ground arith
promote-other b (l ∷ ls) zero h = refl
promote-other b (l ∷ ls) (suc k) h = promote-other _ ls k h

module _ {ℓ} {F J : Type ℓ} ⦃f : Float F⦄ where
  label_state-ne-sustained : (s : NetworkState F J) → label_state s ≢ sustained
  unfolding label_state
  label_state-ne-sustained s = ground arith

  raw-All : (states : List (NetworkState F J)) → All (λ l. l ≢ sustained) (map label_state states)
  raw-All [] = tt
  raw-All (s ∷ states) = (label_state-ne-sustained s, raw-All states)

  -- A state of a sequence is labelled SUSTAINED exactly when it is one of three consecutive states
  -- whose point-in-time labels are SURGE.
  pub label_sequence-sustained_iff :
      (states : List (NetworkState F J)) (k : ℕ)
      → (get_elem? (label_sequence states) k ≡ some sustained)
        ↔ InSurgeWindow (map label_state states) k
  label_sequence-sustained_iff states k =
      rw (label_sequence-promote states)
        (promote-window 0 (map label_state states) k (raw-All states) (omega arith))

  -- Where a state of a sequence is not labelled SUSTAINED, it has its point-in-time label; so has a
  -- place past the end, which has no label.
  pub label_sequence-other :
      (states : List (NetworkState F J)) (k : ℕ)
      → get_elem? (label_sequence states) k ≢ some sustained
      → get_elem? (label_sequence states) k ≡ get_elem? (map label_state states) k
  label_sequence-other states k h =
      rw (label_sequence-promote states)
        (promote-other 0 (map label_state states) k (rw (label_sequence-promote states) at h))
