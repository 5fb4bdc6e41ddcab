-- ===== src/DataLoader/Split.antt =====
-- The split of `create_dataloaders` in forecasting/models/data_loader.py.
use turbo_sh.Common.{
  ℕ, zero, suc, ◌+◌, ◌-◌, ◌≤◌, ◌≡◌, refl, ap, sym, ◌∙◌, List, [], ◌∷◌, ◌++◌, append-nil, ltb,
  length, take, drop, take-append-drop, length-take, length-drop, arith, Float, Bool-cases, inl,
  inr, ℤ, pos, negsuc,
}
use turbo_sh.DataLoader.{slice, Parts, borrow, split_at, split_indices, share, at_least_one}

abbrev pub all_parts : Parts → List ℕ
all_parts p = p.train ++ (p.val ++ p.test)

-- What a split promises.
abbrev pub IsSplit : List ℕ → Parts → Type 0
IsSplit indices p = (all_parts p ≡ indices) × ((p.test ≡ []) → length p.val ≤ 1)

borrow-IsSplit :
    (train val test : List ℕ) → IsSplit (train ++ (val ++ test)) (borrow train val test)
unfolding borrow
borrow-IsSplit train val (i ∷ test) = (refl, λ e. cc)
borrow-IsSplit train val [] = elim (Bool-cases (ltb 1 (length val))) [
  | inl more ↦
      rw (more, borrow)
        (
          ap (◌++◌ train) (take-append-drop (length val - 1) val ∙ sym (append-nil val)),
          λ e.
              let left : length (drop (length val - 1) val) ≡ 0 = ap length e in
              absurd (ground (arith, length-drop (length val - 1) val)),
        )
  | inr few ↦ rw (few, borrow) (refl, λ e. ground arith)
]

drop-drop : (m n : ℕ) (xs : List ℕ) → drop n (drop m xs) ≡ drop (m + n) xs
drop-drop zero n xs = ap (λ k. drop k xs) (omega arith)
drop-drop (suc m) zero [] = ap (λ k. drop k []) {x = suc m} {y = suc m + 0} (omega arith)
drop-drop (suc m) (suc n) [] =
    ap (λ k. drop k []) {x = suc (m + suc n)} {y = suc m + suc n} (omega arith)
drop-drop (suc m) n (x ∷ xs) =
    drop-drop m n xs ∙ ap (λ k. drop k (x ∷ xs)) {x = suc (m + n)} {y = suc m + n} (omega arith)

three_parts : (a b : ℕ) (xs : List ℕ) → take a xs ++ (slice a (a + b) xs ++ drop (a + b) xs) ≡ xs
three_parts a b xs =
    let width : a + b - a ≡ b = omega arith in
    (λ t. take a xs ++ (take (width t) (drop a xs) ++ sym (drop-drop a b xs) t))
    ∙ ap (◌++◌ (take a xs)) (take-append-drop b (drop a xs))
    ∙ take-append-drop a xs

borrow-train : (train val test : List ℕ) → (borrow train val test).train ≡ train
unfolding borrow
borrow-train train val (i ∷ test) = refl
borrow-train train val [] = ground arith

split_at-IsSplit : (a b : ℕ) (indices : List ℕ) → IsSplit indices (split_at a b indices)
unfolding split_at
split_at-IsSplit a b indices =
    let (same, few) =
      borrow-IsSplit (take a indices) (slice a (a + b) indices) (drop (a + b) indices) in
    (same ∙ three_parts a b indices, few)

split_at-train :
    (a b i : ℕ) (indices : List ℕ) → 1 ≤ a → 1 ≤ length (split_at a b (i ∷ indices)).train
unfolding split_at
split_at-train a b i indices h = omega (
  arith,
  ap length (
      borrow-train (take a (i ∷ indices)) (slice a (a + b) (i ∷ indices))
        (drop (a + b) (i ∷ indices))),
  length-take a (i ∷ indices),
)

share-pos : (z : ℤ) → 1 ≤ at_least_one z
share-pos (pos n) = omega arith
share-pos (negsuc n) = omega arith

module _ {ℓ} {F : Type ℓ} ⦃f : Float F⦄ (truncate : F → ℤ) where
  -- Whatever the ratios, the training, the validation and the test part of shuffled indices that
  -- are not empty are together those indices, in order and each once. The training part is not
  -- empty, and if the test part is, the validation part has at most one sequence.
  pub split_indices-IsSplit :
      (train_ratio val_ratio : F) (i : ℕ) (indices : List ℕ)
      → let parts = split_indices truncate train_ratio val_ratio (i ∷ indices) in
        IsSplit (i ∷ indices) parts × (1 ≤ length parts.train)
  unfolding split_indices
  split_indices-IsSplit train_ratio val_ratio i indices =
      let a = share truncate (length (i ∷ indices)) train_ratio in
      (
        split_at-IsSplit a _ (i ∷ indices),
        split_at-train a _ i indices
            (share-pos (truncate (f.mul (f.of_nat (length (i ∷ indices))) train_ratio))),
      )
