-- ===== src/DataLoader/Samples.antt =====
-- The windows of `_extract_sliding_windows` in forecasting/models/data_loader.py.
use turbo_sh.Common.{
  ℕ, zero, suc, ◌+◌, ◌-◌, ◌≡◌, ap, ◌∙◌, List, none, some, if◌then◌else◌, leb, ltb, length, take,
  drop, get_elem?, arith, Bool-cases, inl, inr,
}
use turbo_sh.DataLoader.{slice, samples_from, sequence_samples}

module _ {ℓ} {X Y : Type ℓ} (seq_len horizon : ℕ) (x_seq : List X) (y_seq : List Y) where
  -- The sample that begins at place `j`.
  abbrev pub sample_at : ℕ → List X × List Y
  sample_at j = (take seq_len (drop j x_seq), take horizon (drop (j + seq_len) y_seq))

  slices :
      (i : ℕ)
      → (slice i (i + seq_len) x_seq, slice (i + seq_len) (i + (seq_len + horizon)) y_seq)
        ≡ sample_at i
  slices i =
      let first : i + seq_len - i ≡ seq_len = omega arith in
      let second : i + (seq_len + horizon) - (i + seq_len) ≡ horizon = omega arith in
      λ t. (take (first t) (drop i x_seq), take (second t) (drop (i + seq_len) y_seq))

  samples_from-get :
      (n i j : ℕ)
      → get_elem? (samples_from seq_len horizon i n x_seq y_seq) j
        ≡ (if leb (suc j) n then some (sample_at (i + j)) else none)
  unfolding samples_from
  samples_from-get zero i j = ground arith
  samples_from-get (suc n) i zero =
      ap some (slices i)
      ∙ ap (λ k. some (sample_at k)) {x = i} {y = i + 0} (omega arith)
      ∙ ground arith
  samples_from-get (suc n) i (suc j) =
      let place : suc i + j ≡ i + suc j = omega arith in
      let test : leb (suc j) n ≡ leb (suc (suc j)) (suc n) = ground arith in
      samples_from-get n (suc i) j ∙ λ t. if test t then some (sample_at (place t)) else none

  -- The samples of a sequence are, in order, one for each place from which `seq_len + horizon` steps
  -- are left: the features of the first `seq_len` steps and the labels of the `horizon` behind them.
  pub sequence_samples-get :
      (j : ℕ)
      → get_elem? (sequence_samples seq_len horizon x_seq y_seq) j
        ≡ (if leb (j + (seq_len + horizon)) (length x_seq) then some (sample_at j) else none)
  unfolding sequence_samples
  sequence_samples-get j = elim (Bool-cases (ltb (length x_seq) (seq_len + horizon))) [
    | inl short ↦ rw short (ground arith)
    | inr long ↦
        let place : 0 + j ≡ j = omega arith in
        let test : leb (suc j) (length x_seq + 1 - (seq_len + horizon))
            ≡ leb (j + (seq_len + horizon)) (length x_seq) =
          ground arith in
        rw long (
          samples_from-get (length x_seq + 1 - (seq_len + horizon)) 0 j ∙ λ t.
          if test t then some (sample_at (place t)) else none)
  ]
