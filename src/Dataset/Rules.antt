-- ===== src/Dataset/Rules.antt =====
-- The rules of `classify_row` in pipeline/dataset_builder/build_dataset.py.
use turbo_sh.Common.{
  ◌+◌, ◌≡◌, refl, ap, sym, ◌∙◌, ◌↔◌, ◌⊎◌, inl, inr, List, [], ◌∷◌, map, length, All, true, pos,
  ◌≤ℤ◌, Float, IsOrdered, arith,
}
use turbo_sh.Dataset.{CleanRow, classify_row, label_dataset, normal_rows, attack_rows}

module _ {ℓ} {F : Type ℓ} ⦃f : Float F⦄ where
  -- The four rules, in the order of their list in the file.
  abbrev pub IsAttack : CleanRow F → Type 0
  IsAttack row =
      (pos 50 ≤ℤ row.requests_per_ip_10s)
      ⊎ (((f.le (f.ratio 5 10) row.error_rate ≡ true) × (pos 20 ≤ℤ row.requests_per_ip_60s))
          ⊎ ((pos 200 ≤ℤ row.requests_per_ip_60s)
              ⊎ ((row.latency_spike ≡ pos 1) × (f.le (f.ratio 3 10) row.error_rate ≡ true))))

  -- A row is labelled 1 exactly if one of the four documented rules holds of it.
  pub classify_row-IsAttack_iff : (row : CleanRow F) → (classify_row row ≡ 1) ↔ IsAttack row
  unfolding classify_row
  classify_row-IsAttack_iff row = ground arith

  -- Row `s` is like row `r`, with at least as many requests and errors.
  pub record IsWorse (r s : CleanRow F) : Type 0 where
    pub requests_10s : r.requests_per_ip_10s ≤ℤ s.requests_per_ip_10s
    pub requests_60s : r.requests_per_ip_60s ≤ℤ s.requests_per_ip_60s
    pub errors : f.le r.error_rate s.error_rate ≡ true
    pub spike : r.latency_spike ≡ s.latency_spike

  IsAttack-IsWorse : (laws : IsOrdered F) (r s : CleanRow F) → IsWorse r s → IsAttack r → IsAttack s
  IsAttack-IsWorse laws r s w (inl burst) = inl (omega (arith, w.requests_10s))
  IsAttack-IsWorse laws r s w (inr (inl (errors, requests))) =
      inr (inl (laws.le_trans _ _ _ errors w.errors, omega (arith, w.requests_60s)))
  IsAttack-IsWorse laws r s w (inr (inr (inl flood))) =
      inr (inr (inl (omega (arith, w.requests_60s))))
  IsAttack-IsWorse laws r s w (inr (inr (inr (spike, errors)))) =
      inr (inr (inr (sym w.spike ∙ spike, laws.le_trans _ _ _ errors w.errors)))

  -- If the order of floats is that of IEEE 754, a row that is labelled 1 stays so with more requests
  -- or a higher error rate.
  pub classify_row_mono :
      (laws : IsOrdered F) (r s : CleanRow F)
      → IsWorse r s
      → classify_row r ≡ 1
      → classify_row s ≡ 1
  classify_row_mono laws r s w h =
      (classify_row-IsAttack_iff s).1
        (IsAttack-IsWorse laws r s w ((classify_row-IsAttack_iff r).0 h))

  classify_row-cases : (row : CleanRow F) → (classify_row row ≡ 0) ⊎ (classify_row row ≡ 1)
  unfolding classify_row
  classify_row-cases row = ground arith

  -- The labelled rows are the rows in their order, each labelled 1 exactly if one of the four
  -- rules holds of it, and the normal rows and the attack rows are together as many as the rows.
  pub label_dataset_partition :
      (rows : List (CleanRow F))
      → (map (λ r. r.row) (label_dataset rows) ≡ rows)
        × (length (normal_rows (label_dataset rows)) + length (attack_rows (label_dataset rows))
            ≡ length rows)
        × All (λ r. (r.label ≡ 1) ↔ IsAttack r.row) (label_dataset rows)
  unfolding label_dataset
  label_dataset_partition [] = (refl, refl, tt)
  label_dataset_partition (row ∷ rows) =
      let (same, count, labels) = label_dataset_partition rows in
      (
        ap (◌∷◌ row) same,
        ground (arith, classify_row-cases row),
        (classify_row-IsAttack_iff row, labels),
      )
