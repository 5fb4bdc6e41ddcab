-- ===== src/DataLoader.antt =====
-- forecasting/models/data_loader.py: the feature scaler, the sliding windows of the training data,
-- and the split of the sequences. NumPy's statistics, `int` of a float and the shuffle are parameters.
pub mod Split
pub mod Samples
pub mod Scaling
use turbo_sh.Common.{
  ℕ, zero, suc, ◌+◌, ◌-◌, ◌==◌, String, List, [], ◌∷◌, ◌++◌, map, Bool, true, false, Option, none,
  some, ℤ, pos, negsuc, if◌then◌else◌, ltb, leb, max, length, take, drop, replicate, Float,
}

-- `xs[a:b]`
abbrev pub slice {ℓ} : {A : Type ℓ} → ℕ → ℕ → List A → List A
slice a b xs = take (b - a) (drop a xs)

-- An array of two or three dimensions, with its number of columns.
pub data Array {ℓ} (F : Type ℓ) : Type ℓ where
  rows2 : ℕ → List (List F) → Array F
  rows3 : ℕ → List (List (List F)) → Array F

-- `None` until `fit`.
pub record FeatureScaler {ℓ} (F : Type ℓ) : Type ℓ where
  pub feature_names : List String
  pub eps : F
  pub mean : Option (List F)
  pub std : Option (List F)

abbrev pub concat {ℓ} : {A : Type ℓ} → List (List A) → List A
concat [] = []
concat (xs ∷ xss) = xs ++ concat xss

-- The reshaped array of `fit`.
abbrev pub flattened {ℓ} : {F : Type ℓ} → Array F → ℕ × List (List F)
flattened (rows2 width rows) = (width, rows)
flattened (rows3 width blocks) = (width, concat blocks)

-- Two rows of the same length entry by entry.
abbrev pub zip_with {ℓ} : {A : Type ℓ} → (A → A → A) → List A → List A → List A
zip_with g [] ys = []
zip_with g (x ∷ xs) [] = []
zip_with g (x ∷ xs) (y ∷ ys) = g x y ∷ zip_with g xs ys

-- The number of columns to which NumPy broadcasts two rows; `none` is the `ValueError` of lengths
-- that differ, neither of which is 1.
unfoldable pub common_width : ℕ → ℕ → Option ℕ
common_width m n =
    if m == n then some m else if n == 1 then some m else if m == 1 then some n else none

-- A row repeated to a number of columns, if it has one entry.
abbrev pub spread {ℓ} : {A : Type ℓ} → ℕ → List A → List A
spread n (x ∷ []) = replicate n x
spread n xs = xs

-- An operation of NumPy on two rows.
unfoldable pub broadcast {ℓ} : {A : Type ℓ} → (A → A → A) → List A → List A → Option (List A)
unfolding common_width
broadcast g xs ys = elim (common_width (length xs) (length ys)) [
  | none ↦ none
  | some n ↦ some (zip_with g (spread n xs) (spread n ys))
]

-- `np.mean` and `np.std` by column
pub record Statistics {ℓ} (F : Type ℓ) : Type ℓ where
  pub np_mean : ℕ → List (List F) → List F
  pub np_std : ℕ → List (List F) → List F

module _ {ℓ} {F : Type ℓ} ⦃f : Float F⦄ where
  open f use {lt, sub, add, mul, div, of_nat}

  -- `np.where(self.std_ < self.eps, 1.0, self.std_)`
  unfoldable pub guarded : F → List F → List F
  guarded eps std = map (λ s. if lt s eps then of_nat 1 else s) std

  -- `none` is the `ValueError` of a wrong number of columns.
  unfoldable pub fit : Statistics F → Array F → FeatureScaler F → Option (FeatureScaler F)
  unfolding guarded
  fit stats arr scaler =
      let (width, rows) = flattened arr in
      if width == length scaler.feature_names
      then some (record scaler {
        mean = some (stats.np_mean width rows);
        std = some (guarded scaler.eps (stats.np_std width rows));
      })
      else none

  -- An operation on each row of an array and one row.
  unfoldable pub over_rows : (F → F → F) → Array F → List F → Option (Array F)
  unfolding common_width
  over_rows g (rows2 width rows) ys = elim (common_width width (length ys)) [
    | none ↦ none
    | some n ↦ some (rows2 n (map (λ row. zip_with g (spread n row) (spread n ys)) rows))
  ]
  over_rows g (rows3 width blocks) ys = elim (common_width width (length ys)) [
    | none ↦ none
    | some n ↦ some (rows3 n (map (map (λ row. zip_with g (spread n row) (spread n ys))) blocks))
  ]

  -- `none` is the `RuntimeError` of a scaler that was not fitted, or the `ValueError` of a number of
  -- columns that does not fit.
  unfoldable pub transform : FeatureScaler F → Array F → Option (Array F)
  unfolding over_rows
  transform scaler arr = elim scaler.mean [
    | none ↦ none
    | some mean ↦ elim scaler.std [
      | none ↦ none
      | some std ↦ elim (over_rows sub arr mean) [
        | none ↦ none
        | some centred ↦ over_rows div centred std
      ]
    ]
  ]

  unfoldable pub inverse_transform : FeatureScaler F → Array F → Option (Array F)
  unfolding over_rows
  inverse_transform scaler arr = elim scaler.mean [
    | none ↦ none
    | some mean ↦ elim scaler.std [
      | none ↦ none
      | some std ↦ elim (over_rows mul arr std) [
        | none ↦ none
        | some scaled ↦ over_rows add scaled mean
      ]
    ]
  ]

-- `for i in range(i, i + n)`: a window of the features and the labels behind it
unfoldable pub samples_from {ℓ} :
    {X Y : Type ℓ} → (seq_len horizon i n : ℕ) → List X → List Y → List (List X × List Y)
samples_from seq_len horizon i zero x_seq y_seq = []
samples_from seq_len horizon i (suc n) x_seq y_seq =
    (slice i (i + seq_len) x_seq, slice (i + seq_len) (i + (seq_len + horizon)) y_seq)
    ∷ samples_from seq_len horizon (suc i) n x_seq y_seq

unfoldable pub sequence_samples {ℓ} :
    {X Y : Type ℓ} → (seq_len horizon : ℕ) → List X → List Y → List (List X × List Y)
unfolding samples_from
sequence_samples seq_len horizon x_seq y_seq =
    let total_window = seq_len + horizon in
    if ltb (length x_seq) total_window
    then []
    else samples_from seq_len horizon 0 (length x_seq + 1 - total_window) x_seq y_seq

unfoldable pub extract_sliding_windows {ℓ} :
    {X Y : Type ℓ} → (seq_len horizon : ℕ) → List (List X) → List (List Y) → List (List X × List Y)
unfolding sequence_samples
extract_sliding_windows seq_len horizon [] ys = []
extract_sliding_windows seq_len horizon (x_seq ∷ xs) [] = []
extract_sliding_windows seq_len horizon (x_seq ∷ xs) (y_seq ∷ ys) =
    sequence_samples seq_len horizon x_seq y_seq ++ extract_sliding_windows seq_len horizon xs ys

-- `max(1, z)`
abbrev pub at_least_one : ℤ → ℕ
at_least_one (pos n) = max 1 n
at_least_one (negsuc n) = 1

-- The indices of the training, the validation and the test sequences.
pub record Parts : Type 0 where
  pub train : List ℕ
  pub val : List ℕ
  pub test : List ℕ

-- The last index of `val`, if there are two or more, goes to a test set that is empty.
unfoldable pub borrow : List ℕ → List ℕ → List ℕ → Parts
borrow train val (i ∷ test) = record { train = train; val = val; test = i ∷ test }
borrow train val [] =
    if ltb 1 (length val)
    then record { train = train; val = take (length val - 1) val; test = drop (length val - 1) val }
    else record { train = train; val = val; test = [] }

unfoldable pub split_at : ℕ → ℕ → List ℕ → Parts
unfolding borrow
split_at n_train n_val indices =
    borrow (take n_train indices) (slice n_train (n_train + n_val) indices)
      (drop (n_train + n_val) indices)

module _ {ℓ} {F : Type ℓ} ⦃f : Float F⦄ (truncate : F → ℤ) where
  open f use {lt, mul, of_nat}

  -- `max(1, int(num_sequences * ratio))`
  abbrev pub share : ℕ → F → ℕ
  share num_sequences ratio = at_least_one (truncate (mul (of_nat num_sequences) ratio))

  -- The split of the shuffled indices.
  unfoldable pub split_indices : (train_ratio val_ratio : F) → List ℕ → Parts
  unfolding split_at
  split_indices train_ratio val_ratio indices =
      let num_sequences = length indices in
      let n_train = share num_sequences train_ratio in
      let n_val = if lt (of_nat 0) val_ratio then share num_sequences val_ratio else 0 in
      split_at n_train
        (if leb num_sequences (n_train + n_val) then num_sequences - n_train else n_val) indices
