-- ===== src/Tests/Adapters.antt =====
-- An adapter of a chain with two states, whose current state is decoded by a hidden Markov model.
use turbo_sh.Common.{
  ℕ, ◌≡◌, refl, ◌∙◌, sym, List, [], ◌∷◌, map, true, none, some, length, length-map, All, Millionths,
  millionths, arith,
}
use turbo_sh.DataLoader.{zip_with}
use turbo_sh.Hmm.{predict as hmm_predict, log_gaussian_pdf, next_row, first_row}
use turbo_sh.Markov.{MarkovChain}
use turbo_sh.Markov.Trajectories.{IsProduct}
use turbo_sh.Protocol.MarkovAdapter.{
  MarkovChainAdapter, decode_current_state, predict, predict_proba,
}
use turbo_sh.Protocol.Forecasts.{predict-predict_proba}
use turbo_sh.Tests.{hundredths}
use turbo_sh.Tests.Models.{product, numpy, gaussian, weather}

length-zip_with :
    (g : Millionths → Millionths → Millionths) (xs ys : List Millionths) (k : ℕ)
    → length xs ≡ k
    → length ys ≡ k
    → length (zip_with g xs ys) ≡ k
length-zip_with g [] ys k e e' = e
length-zip_with g (x ∷ xs) [] k e e' = absurd (omega arith)
length-zip_with g (x ∷ xs) (y ∷ ys) k e e' =
    let rest = length-zip_with g xs ys (length xs) refl (omega arith) in omega arith

product-length :
    (a : Millionths) (v : List Millionths) (matrix : List (List Millionths)) (k : ℕ)
    → length matrix ≡ length (a ∷ v)
    → All (λ row. length row ≡ k) matrix
    → (w : List Millionths) × (product (a ∷ v) matrix ≡ some w) × (length w ≡ k)
product-length a v [] k same all = absurd (omega arith)
product-length a [] (row ∷ []) k same (width, all) =
    let mapped = length-map (λ x. millionths.mul a x) row in
    (map (λ x. millionths.mul a x) row, refl, omega arith)
product-length a [] (row ∷ row' ∷ rows) k same all = absurd (omega arith)
product-length a (b ∷ v) (row ∷ rows) k same (width, all) =
    let (w, made, size) = product-length b v rows k (omega arith) all in
    let mapped = length-map (λ x. millionths.mul a x) row in
    (
      zip_with millionths.add (map (λ x. millionths.mul a x) row) w,
      rw (made, product) refl,
      length-zip_with millionths.add (map (λ x. millionths.mul a x) row) w k (omega arith) size,
    )

empty_product :
    (n : ℕ) (matrix : List (List Millionths))
    → 0 ≡ n
    → length matrix ≡ n
    → (w : List Millionths) × (product [] matrix ≡ some w) × (length w ≡ n)
empty_product n [] same size = ([], refl, same)
empty_product n (row ∷ rows) same size = absurd (omega arith)

numpy-IsProduct : IsProduct numpy.vec_mat
numpy-IsProduct = record {
  product = λ n v matrix same square.
      elim v
          as (λ v.
            length v ≡ n → (w : List Millionths) × (product v matrix ≡ some w) × (length w ≡ n)) [
              | [] ↦ λ same. empty_product n matrix same square.0
              | a ∷ v ↦ λ same. product-length a v matrix n (square.0 ∙ sym same) square.1
            ]
        same;
}

abbrev chain : MarkovChain Millionths
chain = record {
  n_states = 2;
  transition_matrix =
      (hundredths 90 ∷ hundredths 10 ∷ []) ∷ (hundredths 40 ∷ hundredths 60 ∷ []) ∷ [];
  is_fitted = true;
}

abbrev adapter : MarkovChainAdapter Millionths
adapter = record {
  mc = some chain;
  hmm = some weather;
  n_states = 2;
  forecast_horizon = 3;
  model_path = none;
  scaler = none;
}

abbrev window : List (List Millionths)
window = (hundredths 100 ∷ []) ∷ (hundredths 300 ∷ []) ∷ []

current : decode_current_state numpy gaussian 1 adapter window ≡ some 1
unfolding decode_current_state hmm_predict log_gaussian_pdf next_row first_row
current = refl

predict-predict_proba_example :
    let row = hundredths 40 ∷ hundredths 60 ∷ [] in
    (rest : List (List Millionths)) × (predict_proba numpy gaussian 1 adapter window
      ≡ some (row ∷ rest))
    × (predict numpy gaussian 1 adapter window ≡ some (map numpy.np_argmax (row ∷ rest)))
    × (length rest ≡ 2)
predict-predict_proba_example =
    predict-predict_proba numpy numpy-IsProduct gaussian 1 adapter chain window 1 2
      (hundredths 40 ∷ hundredths 60 ∷ []) refl (refl, (refl, (refl, tt))) refl refl current
      (omega arith) refl refl
