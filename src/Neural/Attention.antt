-- ===== src/Neural/Attention.antt =====
-- `PositionalEncoding`, `CustomMultiHeadAttention` and `CustomTransformerEncoderLayer` of
-- forecasting/models/transformer_model.py, on one sample: a list of positions.
use turbo_sh.Common.{
  ℕ, zero, suc, ◌+◌, ◌*◌, ◌/◌, ◌%◌, ◌==◌, List, [], ◌∷◌, map, Bool, true, ◌&&◌, Option, none, some,
  if◌then◌else◌, leb, length, take, Float,
}
use turbo_sh.Markov.{tabulate}
use turbo_sh.DataLoader.{slice, broadcast, concat}

-- The functions of PyTorch and of `math` on numbers, vectors and arrays.
pub record Torch {ℓ} (F : Type ℓ) : Type ℓ where
  pub sin : F → F
  pub cos : F → F
  pub exp : F → F
  pub log : F → F
  pub sqrt : F → F
  pub neg : F → F
  pub dot : List F → List F → F
  pub vec_mat : List F → List (List F) → List F
  pub softmax : List F → List F
  pub mean_rows : List (List F) → List F

-- What the attention keeps of a head: the softmax of the scores of each position.
abbrev pub Weights {ℓ} : Type ℓ → Type ℓ
Weights F = List (List (List F))

pub record MultiHeadAttention {ℓ} (F : Type ℓ) : Type ℓ where
  pub nhead : ℕ
  pub d_k : ℕ
  pub w_q : List F → List F
  pub w_k : List F → List F
  pub w_v : List F → List F
  pub w_o : List F → List F

pub record EncoderLayer {ℓ} (F : Type ℓ) : Type ℓ where
  pub self_attn : MultiHeadAttention F
  pub ffn : List F → List F
  pub norm1 : List F → List F
  pub norm2 : List F → List F

-- `view(batch_size, -1, nhead, d_k).transpose(1, 2)`: the positions of each head
unfoldable pub split_heads {ℓ} : {F : Type ℓ} → ℕ → ℕ → List (List F) → List (List (List F))
split_heads nhead d_k rows =
    tabulate 0 nhead (λ h. map (λ row. slice (h * d_k) (h * d_k + d_k) row) rows)

-- The first position of each head, and the others.
abbrev pub heads_first {ℓ} : {A : Type ℓ} → List (List A) → List A
heads_first [] = []
heads_first ([] ∷ heads) = heads_first heads
heads_first ((row ∷ rows) ∷ heads) = row ∷ heads_first heads

abbrev pub heads_rest {ℓ} : {A : Type ℓ} → List (List A) → List (List A)
heads_rest [] = []
heads_rest ([] ∷ heads) = heads_rest heads
heads_rest ((row ∷ rows) ∷ heads) = rows ∷ heads_rest heads

-- `transpose(1, 2).contiguous().view(batch_size, -1, d_model)`, for `n` positions
unfoldable pub merge_heads {ℓ} : {F : Type ℓ} → ℕ → List (List (List F)) → List (List F)
merge_heads zero heads = []
merge_heads (suc n) heads = concat (heads_first heads) ∷ merge_heads n (heads_rest heads)

-- Whether each row has `width` entries.
abbrev pub all_width {ℓ} : {F : Type ℓ} → ℕ → List (List F) → Bool
all_width width [] = true
all_width width (row ∷ rows) = (length row == width) && all_width width rows

-- Three lists, entry by entry.
abbrev pub map3 {ℓ κ} :
    {A : Type ℓ} {B : Type κ} → (A → A → A → B) → List A → List A → List A → List B
map3 g (x ∷ xs) (y ∷ ys) (z ∷ zs) = g x y z ∷ map3 g xs ys zs
map3 g _ _ _ = []

module _ {ℓ} {F : Type ℓ} ⦃f : Float F⦄ (torch : Torch F) where
  open f use {add, mul, div, of_nat}
  open torch use {sin, cos, exp, log, sqrt, neg, dot, vec_mat, softmax}

  -- `div_term[k]`
  abbrev pub div_term : ℕ → ℕ → F
  div_term d_model k = exp (mul (of_nat (2 * k)) (div (neg (log (of_nat 10_000))) (of_nat d_model)))

  -- `pe`: sines in the even columns, cosines in the odd ones
  unfoldable pub positional_encoding : (d_model max_len : ℕ) → List (List F)
  positional_encoding d_model max_len = tabulate 0 max_len (λ position. tabulate 0 d_model (λ c.
      let angle = mul (of_nat position) (div_term d_model (c / 2)) in
      if c % 2 == 0 then sin angle else cos angle))

  -- A sum of two samples; `none` is the error of sizes that do not fit.
  unfoldable pub add_rows : List (List F) → List (List F) → Option (List (List F))
  unfolding broadcast
  add_rows [] [] = some []
  add_rows (x ∷ xs) (y ∷ ys) = elim (broadcast add x y) [
    | none ↦ none
    | some row ↦ elim (add_rows xs ys) [ none ↦ none | some rows ↦ some (row ∷ rows) ]
  ]
  add_rows [] (y ∷ ys) = none
  add_rows (x ∷ xs) [] = none

  -- `x + self.pe[:, :x.size(1), :]`; `none` is the error of a sequence that is longer than `pe`, or of
  -- another width.
  unfoldable pub add_positions : List (List F) → List (List F) → Option (List (List F))
  unfolding add_rows
  add_positions pe x = if leb (length x) (length pe) then add_rows x (take (length x) pe) else none

  -- `softmax(Q Kᵀ / sqrt(d_k))` of a head; the layers of the model pass no mask.
  unfoldable pub head_weights : ℕ → List (List F) → List (List F) → List (List F)
  head_weights d_k q k =
      map (λ q_i. softmax (map (λ k_j. div (dot q_i k_j) (sqrt (of_nat d_k))) k)) q

  -- The context of a head.
  unfoldable pub head_context : ℕ → List (List F) → List (List F) → List (List F) → List (List F)
  unfolding head_weights
  head_context d_k q k v = map (λ weights. vec_mat weights v) (head_weights d_k q k)

  -- The projected rows in their heads; `none` is the error of rows that `view` cannot split.
  unfoldable pub projected :
      ℕ → ℕ → (List F → List F) → List (List F) → Option (List (List (List F)))
  unfolding split_heads
  projected nhead d_k layer x =
      let rows = map layer x in
      if all_width (nhead * d_k) rows then some (split_heads nhead d_k rows) else none

  -- The output, and the weights that are kept in `last_attention_weights`.
  unfoldable pub attention :
      MultiHeadAttention F → List (List F) → Option (List (List F) × Weights F)
  unfolding projected merge_heads head_weights head_context
  attention a x = elim (projected a.nhead a.d_k a.w_q x) [
    | none ↦ none
    | some q ↦ elim (projected a.nhead a.d_k a.w_k x) [
      | none ↦ none
      | some k ↦ elim (projected a.nhead a.d_k a.w_v x) [
        | none ↦ none
        | some v ↦ some (
          map a.w_o (merge_heads (length x) (map3 (head_context a.d_k) q k v)),
          map3 (λ q_h k_h v_h. head_weights a.d_k q_h k_h) q k v,
        )
      ]
    ]
  ]

  -- Attention and feed-forward network, each normalised before and added to its input.
  unfoldable pub encode : EncoderLayer F → List (List F) → Option (List (List F) × Weights F)
  unfolding attention add_rows
  encode layer x = elim (attention layer.self_attn (map layer.norm1 x)) [
    | none ↦ none
    | some (attn_out, weights) ↦ elim (add_rows x attn_out) [
      | none ↦ none
      | some y ↦ elim (add_rows y (map layer.ffn (map layer.norm2 y))) [
        | none ↦ none
        | some z ↦ some (z, weights)
      ]
    ]
  ]
