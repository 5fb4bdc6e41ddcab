-- ===== src/Dataset.antt =====
-- pipeline/dataset_builder/build_dataset.py: the rules that label a feature row as an attack, and
-- the rows of the two datasets.
pub mod Rules
use turbo_sh.Common.{
  ℕ, ◌==◌, String, List, [], ◌∷◌, map, filter, Bool, ◌&&◌, ℤ, pos, leb_ℤ, eqb_ℤ, if◌then◌else◌,
  Float,
}

-- A row of the features file, as `read_features_csv` parses it.
pub record CleanRow {ℓ} (F : Type ℓ) : Type ℓ where
  pub ip_hash : String
  pub requests_per_ip_10s : ℤ
  pub requests_per_ip_60s : ℤ
  pub endpoint_entropy : F
  pub latency_spike : ℤ
  pub error_rate : F
  pub request_variance : F

-- A copy of a row with its label.
pub record LabeledRow {ℓ} (F : Type ℓ) : Type ℓ where
  pub row : CleanRow F
  pub label : ℕ

module _ {ℓ} {F : Type ℓ} ⦃f : Float F⦄ where
  open f use {le, ratio}

  unfoldable pub classify_row : CleanRow F → ℕ
  classify_row row =
      if leb_ℤ (pos 50) row.requests_per_ip_10s
      then 1
      else if le (ratio 5 10) row.error_rate && leb_ℤ (pos 20) row.requests_per_ip_60s
      then 1
      else if leb_ℤ (pos 200) row.requests_per_ip_60s
      then 1
      else if eqb_ℤ row.latency_spike (pos 1) && le (ratio 3 10) row.error_rate
      then 1
      else 0

  unfoldable pub label_dataset : List (CleanRow F) → List (LabeledRow F)
  label_dataset [] = []
  label_dataset (row ∷ rows) = record { row = row; label = classify_row row } ∷ label_dataset rows

-- The rows of traffic that is normal, and those of attack_dataset.csv
abbrev pub normal_rows {ℓ} : {F : Type ℓ} → List (LabeledRow F) → List (LabeledRow F)
normal_rows labeled = filter (λ r. r.label == 0) labeled

abbrev pub attack_rows {ℓ} : {F : Type ℓ} → List (LabeledRow F) → List (LabeledRow F)
attack_rows labeled = filter (λ r. r.label == 1) labeled
