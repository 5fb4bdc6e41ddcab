-- ===== src/Protocol/Forecasts.antt =====
-- The forecasts of `MarkovChainAdapter` of forecasting/models/protocol.py.
use turbo_sh.Common.{
  ℕ, zero, suc, ◌-◌, ◌≡◌, ◌<◌, refl, ap, ◌∙◌, List, [], ◌∷◌, map, append-nil, true, some, pos,
  length, leb, All, Float, arith,
}
use mathlib.Core.Path.{ap₂}
use turbo_sh.Markov.{
  MarkovChain, NumPy, state_index, one_hot, predict_trajectory, predict_trajectory_proba,
}
use turbo_sh.Markov.Trajectories.{IsSquare, IsProduct, predict_trajectory_proba-first}
use turbo_sh.Hmm.{Gaussian}
use turbo_sh.Protocol.{Sequence, fill, fill_rows}
use turbo_sh.Protocol.MarkovAdapter.{
  MarkovChainAdapter, decode_current_state, predict, predict_proba,
}

module _ {ℓ} {F : Type ℓ} ⦃f : Float F⦄ where
  fill_fit : (n : ℕ) (dist : List F) → length dist ≡ n → fill n dist ≡ some dist
  fill_fit n dist same =
      let fits : leb (length dist) n ≡ true = ground arith in
      let none_left : n - length dist ≡ 0 = omega arith in
      rw (fits, none_left, fill) (ap some (append-nil dist))

  fill_rows_fit :
      (horizon n : ℕ) (dists : List (List F))
      → length dists ≡ horizon
      → All (λ dist. length dist ≡ n) dists
      → fill_rows horizon n dists ≡ some dists
  unfolding fill_rows
  fill_rows_fit zero n [] same all = refl
  fill_rows_fit zero n (dist ∷ dists) same all = absurd (omega arith)
  fill_rows_fit (suc horizon) n [] same all = absurd (omega arith)
  fill_rows_fit (suc horizon) n (dist ∷ dists) same (width, all) =
      rw (fill_fit n dist width, fill_rows_fit horizon n dists (omega arith) all, fill_rows) refl

module _ {ℓ} {F : Type ℓ} ⦃f : Float F⦄ (np : NumPy F) (law : IsProduct np.vec_mat)
    (gauss : Gaussian F) (width : ℕ) where
  -- With a chain loaded whose matrix is square, of the adapter's number of states, and for a sequence
  -- whose current state decodes to a state of the chain: `predict_proba` returns a row for each step of
  -- the horizon, the first of which is the row of the current state in the matrix, and `predict`
  -- returns the most likely stage of each row. This is if NumPy's product of a vector and a square
  -- array has the size of the vector, and that of the current state's one-hot vector and the matrix is
  -- the row of the state.
  pub predict-predict_proba :
      (a : MarkovChainAdapter F) (mc : MarkovChain F) (sequence : Sequence F) (state steps : ℕ)
      (row : List F)
      → a.mc ≡ some mc
      → IsSquare mc.n_states mc.transition_matrix
      → a.n_states ≡ mc.n_states
      → a.forecast_horizon ≡ suc steps
      → decode_current_state np gauss width a sequence ≡ some state
      → state < mc.n_states
      → length row ≡ mc.n_states
      → np.vec_mat (one_hot np mc.n_states state) mc.transition_matrix ≡ some row
      → (rest : List (List F)) × (predict_proba np gauss width a sequence ≡ some (row ∷ rest))
        × (predict np gauss width a sequence ≡ some (map np.np_argmax (row ∷ rest)))
        × (length rest ≡ steps)
  unfolding predict predict_proba
  predict-predict_proba a mc sequence state steps row loaded square same_states horizon decoded
        valid size picks =
      let index : state_index mc.n_states (pos state) ≡ some state = ground arith in
      let (rest, dists, stages, len, widths) =
        predict_trajectory_proba-first np law (pos state) state steps mc row index square picks
          size in
      let filled : fill_rows a.forecast_horizon a.n_states (row ∷ rest) ≡ some (row ∷ rest) =
        ap₂ (λ h n. fill_rows h n (row ∷ rest)) horizon same_states
        ∙ fill_rows_fit (suc steps) mc.n_states (row ∷ rest) (ap suc len) (size, widths) in
      let projected = ap (λ h. predict_trajectory_proba np (pos state) h mc) horizon ∙ dists in
      let likely = ap (λ h. predict_trajectory np (pos state) h mc) horizon ∙ stages in
      (
        rest,
        rw (loaded, decoded, projected, filled, predict_proba) refl,
        rw (loaded, decoded, likely, predict) refl,
        len,
      )
