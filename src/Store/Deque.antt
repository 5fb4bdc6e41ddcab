-- ===== src/Store/Deque.antt =====
-- `push`, the `append` of a bounded deque in forecasting/state_store.py.
use turbo_sh.Common.{
  ℕ, zero, suc, ◌-◌, ◌≡◌, refl, sym, ap, ◌∙◌, List, [], ◌∷◌, ◌++◌, Bool-cases, ltb, length, drop,
  take_last, arith, ltb→lt, le_of_not-ltb, length-append, length-drop, drop-append_of_le, inl, inr,
}
use turbo_sh.Store.{push}

module _ {ℓ} {A : Type ℓ} where
  pub drop-suc : (n : ℕ) (xs : List A) → drop 1 (drop n xs) ≡ drop (suc n) xs
  drop-suc zero xs = refl
  drop-suc (suc n) [] = refl
  drop-suc (suc n) (x ∷ xs) = drop-suc n xs

  -- To push keeps the deque equal to the last `n` entries of the whole history.
  pub push-take_last :
      (n : ℕ) (x : A) (xs : List A) → push n x (take_last n xs) ≡ take_last n (xs ++ x ∷ [])
  unfolding push
  push-take_last n x xs =
      let k = length xs - n in
      let joined = drop-append_of_le k xs (x ∷ []) (omega arith) in
      let total = length-append xs (x ∷ []) in
      let held = length-append (drop k xs) (x ∷ []) in
      let kept = length-drop k xs in
      elim (Bool-cases (ltb n (length (drop k xs ++ x ∷ [])))) [
        | inl full ↦ rw full (
            ap (drop 1) (sym joined)
            ∙ drop-suc k (xs ++ x ∷ [])
            ∙ ap (λ m. drop m (xs ++ x ∷ [])) {x = suc k}
                (omega (arith, total, held, kept, ltb→lt _ _ full)))
        | inr room ↦ rw room (
            sym joined
            ∙ ap (λ m. drop m (xs ++ x ∷ [])) {x = k}
                (omega (arith, total, held, kept, le_of_not-ltb _ _ room)))
      ]
