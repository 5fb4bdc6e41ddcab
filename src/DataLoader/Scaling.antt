-- ===== src/DataLoader/Scaling.antt =====
-- `fit` and `transform` of the scaler in forecasting/models/data_loader.py.
use turbo_sh.Common.{
  ℕ, ◌≡◌, ◌≢◌, ◌↔◌, ◌⊎◌, inl, inr, ◌==◌, refl, sym, ap, ◌∙◌, List, [], ◌∷◌, true, false, none, some,
  map, Bool-cases, length, length-map, All, Float, arith,
}
use mathlib.Core.Path.{ap₂}
use turbo_sh.DataLoader.{
  Array, rows2, rows3, flattened, FeatureScaler, Statistics, guarded, fit, transform, over_rows,
  common_width, zip_with, spread,
}

-- NumPy broadcasts `m` columns and a row of `n` entries.
abbrev pub IsCompatible : ℕ → ℕ → Type 0
IsCompatible m n = (m ≡ n) ⊎ ((n ≡ 1) ⊎ (m ≡ 1))

-- The result of a first operation is compatible with a second row of the same length.
abbrev Widths : ℕ → ℕ → Type 0
Widths m n =
    ((IsCompatible m n → ⊥) × (common_width m n ≡ none))
    ⊎ (IsCompatible m n
        × (w : ℕ) × (common_width m n ≡ some w)
        × (w' : ℕ) × (common_width w n ≡ some w'))

not-compatible :
    (m n : ℕ) → (m == n) ≡ false → (n == 1) ≡ false → (m == 1) ≡ false → IsCompatible m n → ⊥
not-compatible m n a b c (inl e) = ground arith
not-compatible m n a b c (inr (inl e)) = ground arith
not-compatible m n a b c (inr (inr e)) = ground arith

widths : (m n : ℕ) → Widths m n
unfolding common_width
widths m n = elim (Bool-cases (m == n)) [
  | inl same ↦ inr (inl (ground arith), m, rw same refl, m, rw same refl)
  | inr other ↦ elim (Bool-cases (n == 1)) [
    | inl one ↦ inr (inr (inl (ground arith)), m, rw (other, one) refl, m, rw (other, one) refl)
    | inr more ↦ elim (Bool-cases (m == 1)) [
      | inl one ↦
          let eq : (n == n) ≡ true = ground arith in
          inr (inr (inr (ground arith)), n, rw (other, more, one) refl, n, rw eq refl)
      | inr wide ↦ inl (not-compatible m n other more wide, rw (other, more, wide) refl)
    ]
  ]
]

abbrev pub columns {ℓ} : {F : Type ℓ} → Array F → ℕ
columns arr = (flattened arr).0

-- The statistics have an entry for each column.
pub record IsByColumn {ℓ} {F : Type ℓ} (stats : Statistics F) : Type ℓ where
  pub length-np_mean : (n : ℕ) (rows : List (List F)) → length (stats.np_mean n rows) ≡ n
  pub length-np_std : (n : ℕ) (rows : List (List F)) → length (stats.np_std n rows) ≡ n

none≢some {ℓ} : {A : Type ℓ} {a : A} → none ≡ some a → ⊥
none≢some e = ground arith

module _ {ℓ} {F : Type ℓ} ⦃f : Float F⦄ where
  guarded-All :
      (eps : F) (std : List F)
      → f.lt (f.of_nat 1) eps ≡ false
      → All (λ s. f.lt s eps ≡ false) (guarded eps std)
  unfolding guarded
  guarded-All eps [] h = tt
  guarded-All eps (s ∷ std) h = (ground arith, guarded-All eps std h)

  length-guarded : (eps : F) (std : List F) → length (guarded eps std) ≡ length std
  unfolding guarded
  length-guarded eps std = length-map _ std

  over_rows-none :
      (g : F → F → F) (arr : Array F) (ys : List F)
      → common_width (columns arr) (length ys) ≡ none
      → over_rows g arr ys ≡ none
  unfolding over_rows
  over_rows-none g (rows2 width rows) ys e = rw (e, over_rows) refl
  over_rows-none g (rows3 width blocks) ys e = rw (e, over_rows) refl

  over_rows-some :
      (g : F → F → F) (arr : Array F) (ys : List F) (n : ℕ)
      → common_width (columns arr) (length ys) ≡ some n
      → (out : Array F) × (over_rows g arr ys ≡ some out) × (columns out ≡ n)
  unfolding over_rows
  over_rows-some g (rows2 width rows) ys n e = (
    rows2 n (map (λ row. zip_with g (spread n row) (spread n ys)) rows),
    rw (e, over_rows) refl,
    refl,
  )
  over_rows-some g (rows3 width blocks) ys n e = (
    rows3 n (map (map (λ row. zip_with g (spread n row) (spread n ys))) blocks),
    rw (e, over_rows) refl,
    refl,
  )

  -- With a mean and a deviation for each of `k` columns, exactly the compatible arrays are transformed.
  transform_iff :
      (scaler : FeatureScaler F) (mean std : List F) (k : ℕ) (other : Array F)
      → scaler.mean ≡ some mean
      → scaler.std ≡ some std
      → length mean ≡ k
      → length std ≡ k
      → (transform scaler other ≢ none) ↔ IsCompatible (columns other) k
  unfolding transform
  transform_iff scaler mean std k other m s mean_len std_len = elim (widths (columns other) k) [
    | inl (clash, e) ↦
        let failed =
          over_rows-none f.sub other mean (ap (common_width (columns other)) mean_len ∙ e) in
        let raised : transform scaler other ≡ none = rw (m, s, failed, transform) refl in
        ((λ returns. absurd (returns raised)), (λ fits. absurd (clash fits)))
    | inr (fits, w, e, w', e') ↦
        let (centred, ran, width) =
          over_rows-some f.sub other mean w (ap (common_width (columns other)) mean_len ∙ e) in
        let (out, ran', width') =
          over_rows-some f.div centred std w' (ap₂ common_width width std_len ∙ e') in
        let returned : transform scaler other ≡ some out = rw (m, s, ran, ran', transform) refl in
        ((λ returns. fits), (λ c failed. none≢some (sym failed ∙ returned)))
  ]

  -- If `eps` is not above 1, and the statistics have an entry for each column: a scaler can be fitted
  -- to an array with one column for each feature. It then transforms exactly the arrays whose number
  -- of columns is that of the features, or where one of the two numbers is 1, and raises on the
  -- others; and it divides by no number below `eps`.
  pub fit-transform_total :
      (stats : Statistics F) (by_column : IsByColumn stats) (arr other : Array F)
      (scaler : FeatureScaler F)
      → f.lt (f.of_nat 1) scaler.eps ≡ false
      → columns arr ≡ length scaler.feature_names
      → (fitted : FeatureScaler F) × (std : List F) × (fit stats arr scaler ≡ some fitted)
        × (fitted.std ≡ some std)
        × All (λ s. f.lt s scaler.eps ≡ false) std
        × ((transform fitted other ≢ none)
            ↔ IsCompatible (columns other) (length scaler.feature_names))
  unfolding fit
  fit-transform_total stats by_column arr other scaler h e =
      let (width, rows) = flattened arr in
      let mean = stats.np_mean width rows in
      let std = guarded scaler.eps (stats.np_std width rows) in
      let fitted : FeatureScaler F = record scaler { mean = some mean; std = some std } in
      let same : ((flattened arr).0 == length scaler.feature_names) ≡ true = ground arith in
      (
        fitted,
        std,
        rw same refl,
        refl,
        guarded-All scaler.eps (stats.np_std width rows) h,
        transform_iff fitted mean std (length scaler.feature_names) other refl refl
            (by_column.length-np_mean width rows ∙ e)
            (length-guarded scaler.eps (stats.np_std width rows)
              ∙ by_column.length-np_std width rows
              ∙ e),
      )
