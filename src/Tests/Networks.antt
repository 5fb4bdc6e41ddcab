-- ===== src/Tests/Networks.antt =====
-- Heads of an attention, and a recurrent model.
use turbo_sh.Common.{ℕ, ◌≡◌, refl, List, [], ◌∷◌, Millionths, millionths}
use turbo_sh.DataLoader.{zip_with}
use turbo_sh.Neural.Attention.{Torch, split_heads, merge_heads}
use turbo_sh.Neural.Heads.{merge_heads-split_heads}
use turbo_sh.Neural.Lstm.{LstmForecaster}
use turbo_sh.Tests.{hundredths}
use turbo_sh.Tests.Models.{total}

abbrev two_rows : List (List ℕ)
two_rows = (1 ∷ 2 ∷ 3 ∷ 4 ∷ []) ∷ (5 ∷ 6 ∷ 7 ∷ 8 ∷ []) ∷ []

merge_heads-split_heads_example : merge_heads 2 (split_heads 2 2 two_rows) ≡ two_rows
merge_heads-split_heads_example = merge_heads-split_heads 2 2 two_rows (refl, (refl, tt))

abbrev pub torch : Torch Millionths
torch = record {
  sin = λ x. x;
  cos = λ x. x;
  exp = λ x. x;
  log = λ x. x;
  sqrt = λ x. x;
  neg = λ x. x;
  dot = λ xs ys. total (zip_with millionths.mul xs ys);
  vec_mat = λ v rows. v;
  softmax = λ v. v;
  mean_rows = λ rows. elim rows [ [] ↦ [] | row ∷ _ ↦ row ];
}

abbrev pub row_of : ℕ → List Millionths
row_of n = hundredths n ∷ hundredths 100 ∷ []

abbrev pub recurrent : LstmForecaster Millionths
recurrent = record {
  input_size = 2;
  hidden_size = 2;
  num_layers = 1;
  num_classes = 2;
  forecast_horizon = 1;
  dropout_rate = hundredths 30;
  lstm = λ x. x;
  fc = λ v. v;
  head = λ v. v;
}
