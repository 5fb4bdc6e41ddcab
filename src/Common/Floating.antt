-- ===== src/Common/Floating.antt =====
-- Python's `float`: a type with its operations, of which the program uses the comparisons and the
-- four operations of arithmetic. Nothing is assumed of a rounding.
use Prim.Native.Nat.{ℕ, ◌+◌, ◌-◌, ◌*◌, ◌/◌}
use mathlib.Core.Bool.{Bool, true, false, not}
use mathlib.Core.Option.{Option, none, some}
use mathlib.Core.Path.{◌≡◌, sym, ◌∙◌}
use mathlib.Core.Logic.{◌⊎◌, inl, inr}
use native.Mathlib.Omega.{arith}
use turbo_sh.Common.Tests.{leb, ltb, ◌==◌}

-- `ratio n d` is the literal that stands for n / d, and `of_nat` the conversion of an `int`.
pub record Float {ℓ} (F : Type ℓ) : Type ℓ where
  pub lt : F → F → Bool
  pub le : F → F → Bool
  pub eq : F → F → Bool
  pub add : F → F → F
  pub sub : F → F → F
  pub mul : F → F → F
  pub div : F → F → F
  pub of_nat : ℕ → F
  pub ratio : ℕ → ℕ → F

-- NaN is the value that is not `<=` itself.
abbrev pub IsNumber {ℓ} : {F : Type ℓ} ⦃f : Float F⦄ → F → Type 0
IsNumber ⦃f⦄ x = f.le x x ≡ true

-- What IEEE 754 says of the order: it is total among the numbers, and false at NaN.
pub record IsOrdered {ℓ} (F : Type ℓ) ⦃f : Float F⦄ : Type ℓ where
  pub number_of_le : (x y : F) → f.le x y ≡ true → IsNumber x × IsNumber y
  pub number_of_lt : (x y : F) → f.lt x y ≡ true → IsNumber x × IsNumber y
  pub le_trans : (x y z : F) → f.le x y ≡ true → f.le y z ≡ true → f.le x z ≡ true
  pub le_total : (x y : F) → IsNumber x → IsNumber y → (f.le x y ≡ true) ⊎ (f.le y x ≡ true)
  pub lt-eq-not-le : (x y : F) → IsNumber x → IsNumber y → f.lt x y ≡ not (f.le y x)

of_not-false : (b : Bool) → not b ≡ false → b ≡ true
of_not-false b h = ground arith

not-both : (a b : Bool) → a ≡ not b → a ≡ true → b ≡ true → ⊥
not-both a b e h k = ground arith

module _ {ℓ} {F : Type ℓ} ⦃f : Float F⦄ (ordered : IsOrdered F) (a b : F) (a_num : IsNumber a)
    (b_num : IsNumber b) where
  pub le_of_not-lt : f.lt a b ≡ false → f.le b a ≡ true
  le_of_not-lt not_lt =
      of_not-false (f.le b a) (sym (ordered.lt-eq-not-le a b a_num b_num) ∙ not_lt)

  pub le_of-lt : f.lt a b ≡ true → f.le a b ≡ true
  le_of-lt lt = elim (ordered.le_total a b a_num b_num) [
    | inl le ↦ le
    | inr ge ↦ absurd (not-both _ _ (ordered.lt-eq-not-le a b a_num b_num) lt ge)
  ]

-- Values at which the laws can be met: millionths, rounded down, with `none` for NaN.
abbrev pub Millionths : Type 0
Millionths = Option ℕ

abbrev pub on_numbers : (ℕ → ℕ → Bool) → Millionths → Millionths → Bool
on_numbers g (some a) (some b) = g a b
on_numbers g _ _ = false

abbrev pub combine : (ℕ → ℕ → ℕ) → Millionths → Millionths → Millionths
combine g (some a) (some b) = some (g a b)
combine g _ _ = none

instance abbrev pub millionths : Float Millionths
millionths = record {
  lt = on_numbers ltb;
  le = on_numbers leb;
  eq = on_numbers ◌==◌;
  add = combine ◌+◌;
  sub = combine ◌-◌;
  mul = combine (λ a b. a * b / 1_000_000);
  div = combine (λ a b. a * 1_000_000 / b);
  of_nat = λ n. some (n * 1_000_000);
  ratio = λ n d. some (n * 1_000_000 / d);
}

pub Millionths-IsOrdered : IsOrdered Millionths
Millionths-IsOrdered = ground arith
