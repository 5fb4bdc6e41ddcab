-- ===== src/Markov/Trajectories.antt =====
-- `predict_trajectory` and `predict_trajectory_proba` of forecasting/models/markov_chain.py.
use turbo_sh.Common.{
  ℕ, zero, suc, ◌≡◌, refl, ap, ◌≢◌, List, [], ◌∷◌, map, true, Option, none, some, ℤ, length, take,
  leb, All, Float, Option-cases, inl, inr, arith,
}
use turbo_sh.Markov.{
  MarkovChain, NumPy, state_index, tabulate, entries, trajectory, distributions, predict_trajectory,
  predict_trajectory_proba, one_hot,
}

take_all {ℓ} : {A : Type ℓ} (n : ℕ) (xs : List A) → length xs ≡ n → take n xs ≡ xs
take_all zero [] e = refl
take_all zero (x ∷ xs) e = absurd (omega arith)
take_all (suc n) [] e = refl
take_all (suc n) (x ∷ xs) e = ap (◌∷◌ x) (take_all n xs (omega arith))

length-tabulate {ℓ} : {A : Type ℓ} (i n : ℕ) (g : ℕ → A) → length (tabulate i n g) ≡ n
length-tabulate i zero g = refl
length-tabulate i (suc n) g = ap suc (length-tabulate (suc i) n g)

-- An array of `n` rows and `n` columns.
abbrev pub IsSquare {ℓ} : {F : Type ℓ} → ℕ → List (List F) → Type 0
IsSquare n matrix = (length matrix ≡ n) × All (λ row. length row ≡ n) matrix

-- The product of a vector of `n` entries and a square array exists, and has `n` entries.
pub record IsProduct {ℓ} {F : Type ℓ} (vec_mat : List F → List (List F) → Option (List F))
    : Type ℓ where
  pub product :
      (n : ℕ) (v : List F) (matrix : List (List F))
      → length v ≡ n
      → IsSquare n matrix
      → (w : List F) × (vec_mat v matrix ≡ some w) × (length w ≡ n)

module _ {ℓ} {F : Type ℓ} ⦃f : Float F⦄ (np : NumPy F) (law : IsProduct np.vec_mat) where
  entries_fit : (n : ℕ) (w : List F) → length w ≡ n → entries np n w ≡ some w
  unfolding entries
  entries_fit n w same =
      let all : leb n (length w) ≡ true = ground arith in rw all (ap some (take_all n w same))

  -- Both loops return, and the stages are those of the distributions.
  abbrev Agree : ℕ → ℕ → List (List F) → List F → Type ℓ
  Agree n steps matrix v =
      (probs : List (List F)) × (distributions np n steps matrix v ≡ some probs)
      × (trajectory np steps matrix v ≡ some (map np.np_argmax probs))
      × (length probs ≡ steps)
      × All (λ row. length row ≡ n) probs

  trajectory-distributions :
      (n steps : ℕ) (matrix : List (List F)) (v : List F)
      → length v ≡ n
      → IsSquare n matrix
      → Agree n steps matrix v
  unfolding trajectory distributions
  trajectory-distributions n zero matrix v same square = ([], refl, refl, refl, tt)
  trajectory-distributions n (suc steps) matrix v same square =
      let (w, product, width) = law.product n v matrix same square in
      let (probs, dists, stages, len, widths) =
        trajectory-distributions n steps matrix w width square in
      (
        w ∷ probs,
        rw (product, entries_fit n w width, dists, distributions) refl,
        rw (product, stages, trajectory) refl,
        ap suc len,
        (width, widths),
      )

  agree_of-valid :
      (current : ℤ) (s steps : ℕ) (m : MarkovChain F)
      → state_index m.n_states current ≡ some s
      → IsSquare m.n_states m.transition_matrix
      → (probs : List (List F)) × (predict_trajectory_proba np current steps m ≡ some probs)
        × (predict_trajectory np current steps m ≡ some (map np.np_argmax probs))
        × (length probs ≡ steps)
        × All (λ row. length row ≡ m.n_states) probs
  unfolding predict_trajectory predict_trajectory_proba
  agree_of-valid current s steps m e square =
      rw (e, predict_trajectory, predict_trajectory_proba)
        (trajectory-distributions m.n_states steps m.transition_matrix (one_hot np m.n_states s)
          (length-tabulate 0 m.n_states _) square)

  -- From a valid stage of a chain with a square matrix both forecasts return: the one of
  -- `predict_trajectory_proba` has as many distributions as steps were asked for, and the one of
  -- `predict_trajectory` is the most likely stage of each of them. This is if NumPy's product of a
  -- vector and a square array of its size has the size of the vector.
  pub predict_trajectory-predict_trajectory_proba :
      (current : ℤ) (steps : ℕ) (m : MarkovChain F)
      → state_index m.n_states current ≢ none
      → IsSquare m.n_states m.transition_matrix
      → (probs : List (List F)) × (predict_trajectory_proba np current steps m ≡ some probs)
        × (predict_trajectory np current steps m ≡ some (map np.np_argmax probs))
        × (length probs ≡ steps)
  unfolding predict_trajectory predict_trajectory_proba
  predict_trajectory-predict_trajectory_proba current steps m valid square =
      elim (Option-cases (state_index m.n_states current)) [
        | inl invalid ↦ absurd (valid invalid)
        | inr (s, e) ↦
            let (probs, dists, stages, len, _) = agree_of-valid current s steps m e square in
            (probs, dists, stages, len)
      ]

  -- The first distribution is the row of the stage, where the product with its one-hot vector is.
  pub predict_trajectory_proba-first :
      (current : ℤ) (s steps : ℕ) (m : MarkovChain F) (row : List F)
      → state_index m.n_states current ≡ some s
      → IsSquare m.n_states m.transition_matrix
      → np.vec_mat (one_hot np m.n_states s) m.transition_matrix ≡ some row
      → length row ≡ m.n_states
      → (rest : List (List F)) × (predict_trajectory_proba np current (suc steps) m
          ≡ some (row ∷ rest))
        × (predict_trajectory np current (suc steps) m ≡ some (map np.np_argmax (row ∷ rest)))
        × (length rest ≡ steps)
        × All (λ r. length r ≡ m.n_states) rest
  unfolding predict_trajectory predict_trajectory_proba distributions trajectory
  predict_trajectory_proba-first current s steps m row e square picks width =
      let (rest, dists, stages, len, widths) =
        trajectory-distributions m.n_states steps m.transition_matrix row width square in
      (
        rest,
        rw
            (
              e,
              predict_trajectory_proba,
              picks,
              entries_fit m.n_states row width,
              dists,
              distributions,
            )
            refl,
        rw (e, predict_trajectory, picks, stages, trajectory) refl,
        len,
        widths,
      )
