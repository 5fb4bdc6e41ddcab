-- ===== src/Neural/Heads.antt =====
-- The heads of `CustomMultiHeadAttention` in forecasting/models/transformer_model.py.
use turbo_sh.Common.{
  ℕ, zero, suc, ◌+◌, ◌-◌, ◌*◌, ◌≡◌, refl, sym, ap, ◌∙◌, List, [], ◌∷◌, ◌++◌, map, length, take,
  drop, All, take-append-drop, drop_of_length-le, arith,
}
use mathlib.Core.Path.{ap₂}
use native.Mathlib.Nat.{suc-mul, zero-mul}
use turbo_sh.Markov.{tabulate}
use turbo_sh.DataLoader.{slice, concat}
use turbo_sh.Neural.Attention.{split_heads, heads_first, heads_rest, merge_heads}

drop-drop {ℓ} : {A : Type ℓ} (m n k : ℕ) (xs : List A) → m + n ≡ k → drop n (drop m xs) ≡ drop k xs
drop-drop zero n k xs eq = ap (λ t. drop t xs) (omega arith)
drop-drop (suc m) n k [] eq =
    drop_of_length-le n [] (omega arith) ∙ sym (drop_of_length-le k [] (omega arith))
drop-drop (suc m) n zero (x ∷ xs) eq = absurd (omega arith)
drop-drop (suc m) n (suc k) (x ∷ xs) eq = drop-drop m n k xs (omega arith)

module _ {ℓ} {F : Type ℓ} (d : ℕ) where
  -- The piece of a row that head `h` reads.
  abbrev piece : List F → ℕ → List F
  piece row h = slice (h * d) (h * d + d) row

  slice-append-drop :
      (row : List F) (h : ℕ) → piece row h ++ drop (suc h * d) row ≡ drop (h * d) row
  slice-append-drop row h =
      let width : h * d + d - h * d ≡ d = omega arith in
      rw width (
        ap (λ rest. take d (drop (h * d) row) ++ rest)
          (sym (drop-drop (h * d) d (suc h * d) row (sym (suc-mul h d))))
        ∙ take-append-drop d (drop (h * d) row))

  concat-tabulate :
      (row : List F) (i n : ℕ)
      → length row ≡ (i + n) * d
      → concat (tabulate i n (piece row)) ≡ drop (i * d) row
  concat-tabulate row i zero same =
      let zero_right : i + 0 ≡ i = omega arith in
      sym (drop_of_length-le (i * d) row (omega (arith, same, ap (λ k. k * d) zero_right)))
  concat-tabulate row i (suc n) same =
      ap (◌++◌ (piece row i)) (concat-tabulate row (suc i) n (same ∙ ap (λ k. k * d) (omega arith)))
      ∙ slice-append-drop row i

  heads_first-tabulate :
      (i n : ℕ) (row : List F) (rows : List (List F))
      → heads_first (tabulate i n (λ h. map (λ r. piece r h) (row ∷ rows)))
        ≡ tabulate i n (piece row)
  heads_first-tabulate i zero row rows = refl
  heads_first-tabulate i (suc n) row rows =
      ap (◌∷◌ (piece row i)) (heads_first-tabulate (suc i) n row rows)

  heads_rest-tabulate :
      (i n : ℕ) (row : List F) (rows : List (List F))
      → heads_rest (tabulate i n (λ h. map (λ r. piece r h) (row ∷ rows)))
        ≡ tabulate i n (λ h. map (λ r. piece r h) rows)
  heads_rest-tabulate i zero row rows = refl
  heads_rest-tabulate i (suc n) row rows =
      ap (◌∷◌ (map (λ r. piece r i) rows)) (heads_rest-tabulate (suc i) n row rows)

-- Merging the heads gives back the rows that were split, when each row has `d_k` entries for each
-- of the heads.
pub merge_heads-split_heads {ℓ} :
    {F : Type ℓ} (nhead d_k : ℕ) (rows : List (List F))
    → All (λ row. length row ≡ nhead * d_k) rows
    → merge_heads (length rows) (split_heads nhead d_k rows) ≡ rows
unfolding merge_heads split_heads
merge_heads-split_heads nhead d_k [] wide = refl
merge_heads-split_heads nhead d_k (row ∷ rows) (same, wide) =
    ap₂ ◌∷◌
      (ap concat (heads_first-tabulate d_k 0 nhead row rows)
        ∙ concat-tabulate d_k row 0 nhead (same ∙ ap (λ k. k * d_k) (omega arith))
        ∙ ap (λ k. drop k row) (zero-mul d_k))
      (ap (merge_heads (length rows)) (heads_rest-tabulate d_k 0 nhead row rows)
        ∙ merge_heads-split_heads nhead d_k rows wide)
