-- ===== src/Progression/Trend.antt =====
-- `is_escalating` of forecasting/attack_progression.py.
use turbo_sh.Common.{
  ℕ, ◌+◌, ◌≤◌, ◌<◌, ◌≡◌, refl, sym, ◌∙◌, ◌↔◌, inl, inr, List, [], ◌∷◌, true, false, ℤ, pos, negsuc,
  ltb, length, All, arith, Bool-cases,
}
use turbo_sh.Progression.{valid_stages, last_stage, max_stage, rises, is_escalating}

max_stage-All :
    (m s : ℕ) (stages : List ℕ) → (max_stage s stages ≤ m) ↔ ((s ≤ m) × All (λ t. t ≤ m) stages)
max_stage-All m s [] = (λ h. (omega arith, tt), λ h. omega arith)
max_stage-All m s (t ∷ stages) =
    let (there, back) = max_stage-All m t stages in
    (λ h. (omega arith, there (omega arith)), λ h. omega (arith, back h.1))

-- The first valid stage is below the last, and no valid stage is more than one above the last.
abbrev pub IsRise : List ℕ → Type 0
IsRise [] = ⊥
IsRise (s ∷ stages) = (s < last_stage s stages) × All (λ t. t ≤ last_stage s stages + 1) stages

rises-IsRise : (stages : List ℕ) → (rises stages ≡ true) ↔ IsRise stages
unfolding rises
rises-IsRise [] = (λ h. cc, λ h. absurd h)
rises-IsRise (s ∷ []) = (λ h. cc, λ h. absurd (omega (arith, h.0)))
rises-IsRise (s ∷ t ∷ stages) =
    let (there, back) = max_stage-All (last_stage t stages + 1) s (t ∷ stages) in
    (
      λ h. (ground arith, (there (ground arith)).1),
      λ h. ground (arith, back (omega (arith, h.0), h.1)),
    )

length-valid : (n : ℕ) (stages : List ℤ) → length (valid_stages n stages) ≤ length stages
length-valid n [] = omega arith
length-valid n (pos s ∷ stages) = ground (arith, length-valid n stages)
length-valid n (negsuc s ∷ stages) = omega (arith, length-valid n stages)

rises-short : (stages : List ℕ) → length stages < 2 → rises stages ≡ false
unfolding rises
rises-short [] h = refl
rises-short (s ∷ []) h = refl
rises-short (s ∷ t ∷ stages) h = absurd (omega arith)

-- A history counts as escalating exactly if, of its valid stages, the first is below the last and
-- none of the others is more than one above the last.
pub is_escalating-IsRise :
    (n : ℕ) (recent_stages : List ℤ)
    → (is_escalating n recent_stages ≡ true) ↔ IsRise (valid_stages n recent_stages)
unfolding is_escalating
is_escalating-IsRise n recent_stages = elim (Bool-cases (ltb (length recent_stages) 2)) [
  | inl short ↦
      let none_valid =
        rises-short (valid_stages n recent_stages) (ground (arith, length-valid n recent_stages)) in
      let (there, back) = rises-IsRise (valid_stages n recent_stages) in
      rw short (λ h. cc, λ h. let clash : true ≡ false = sym (back h) ∙ none_valid in cc)
  | inr long ↦ rw long (rises-IsRise (valid_stages n recent_stages))
]
