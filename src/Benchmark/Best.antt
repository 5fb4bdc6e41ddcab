-- ===== src/Benchmark/Best.antt =====
-- `max(candidates, key=candidates.get)` of forecasting/benchmark/runner.py.
use turbo_sh.Common.{
  ◌≡◌, refl, ap, String, List, [], ◌∷◌, Bool, true, false, All, Float, IsNumber, IsOrdered,
  le_of_not-lt, le_of-lt, Bool-cases, if◌then◌else◌, inl, inr,
}
use mathlib.Core.Path.{subst⁻¹}
use turbo_sh.Benchmark.{best_from}

module _ {ℓ} {F : Type ℓ} ⦃f : Float F⦄ where
  best_from-nil : (best : String × F) → best_from best [] ≡ best
  unfolding best_from
  best_from-nil best = refl

  best_from-cons :
      (best c : String × F) (candidates : List (String × F)) (lt : Bool)
      → f.lt best.1 c.1 ≡ lt
      → best_from best (c ∷ candidates) ≡ best_from (if lt then c else best) candidates
  unfolding best_from
  best_from-cons best c candidates lt e = ap (λ b. best_from (if b then c else best) candidates) e

  -- One of the candidates, with no greater score among them.
  abbrev pub IsTop {κ} :
      (P : String × F → Type κ) → String × F → List (String × F) → String × F → Type κ
  IsTop P best candidates top =
      P top × (f.le best.1 top.1 ≡ true) × All (λ c. f.le c.1 top.1 ≡ true) candidates

  pub best_from-IsTop {κ} :
      (P : String × F → Type κ) (ordered : IsOrdered F) (best : String × F)
      (candidates : List (String × F))
      → P best
      → All P candidates
      → IsNumber best.1
      → All (λ c. IsNumber c.1) candidates
      → IsTop P best candidates (best_from best candidates)
  best_from-IsTop P ordered best [] here all num nums =
      let same : best_from best [] ≡ best = best_from-nil best in
      subst⁻¹ (IsTop P best []) same (here, num, tt)
  best_from-IsTop P ordered best (c ∷ cs) here (p, all) num (c_num, nums) =
      elim (Bool-cases (f.lt best.1 c.1)) [
        | inl better ↦
            let (found, c_le, rest) = best_from-IsTop P ordered c cs p all c_num nums in
            subst⁻¹ (IsTop P best (c ∷ cs)) (best_from-cons best c cs true better) (
              found,
              ordered.le_trans _ _ _ (le_of-lt ordered _ _ num c_num better) c_le,
              (c_le, rest),
            )
        | inr worse ↦
            let (found, best_le, rest) = best_from-IsTop P ordered best cs here all num nums in
            subst⁻¹ (IsTop P best (c ∷ cs)) (best_from-cons best c cs false worse) (
              found,
              best_le,
              (ordered.le_trans _ _ _ (le_of_not-lt ordered _ _ num c_num worse) best_le, rest),
            )
      ]
