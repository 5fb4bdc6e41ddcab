-- ===== src/Hmm/Fitting.antt =====
-- What `fit` of forecasting/models/hmm_model.py makes of its counts.
use turbo_sh.Common.{ℕ, ◌<◌, ◌≡◌, ap, ◌∙◌, List, ◌∷◌, ℤ, Float, arith}
use mathlib.Core.Path.{ap₂}
use turbo_sh.Markov.{NumPy}
use turbo_sh.Markov.Counts.{tabulate-ext, all_occurrences}
use turbo_sh.Hmm.{Gaussian, HmmForecaster, no_counts, smoothed, mean_of, vars_of, fit_counts, fit}
use turbo_sh.Hmm.Counting.{
  all_starts, used, all_labelled, count_all-starts, count_all-occurrences, count_all-labelled,
}

module _ {ℓ} {F : Type ℓ} ⦃f : Float F⦄ (np : NumPy F) (gauss : Gaussian F) where
  smoothed-ext :
      (n a : ℕ) (alpha : F) (c d : ℕ → ℕ)
      → a < n
      → ((b : ℕ) → b < n → c b ≡ d b)
      → smoothed np gauss n alpha c a ≡ smoothed np gauss n alpha d a
  smoothed-ext n a alpha c d a_lt same =
      ap₂ f.div (ap (λ k. f.add (f.of_nat k) alpha) (same a a_lt)) (
        ap np.np_sum (
          tabulate-ext 0 n _ _
            (λ b lo hi. ap (λ k. f.add (f.of_nat k) alpha) (same b (omega arith)))))

  -- After `fit` on at least one sequence of observations and of states, the chances to start in a
  -- state and to go from it to another are the smoothed and normalised counts over the sequences of
  -- states that are as long as their observations, and its mean and variances those of the
  -- observations that these sequences label with it, or the former ones, floored, if there are none.
  pub fit-all_labelled :
      (obs_seq : List (List F)) (obs_seqs : List (List (List F))) (st_seq : List ℤ)
      (st_seqs : List (List ℤ)) (alpha variance_floor : F) (hmm : HmmForecaster F) (a b : ℕ)
      → a < hmm.n_states
      → b < hmm.n_states
      → let fitted =
          fit np gauss (obs_seq ∷ obs_seqs) (st_seq ∷ st_seqs) alpha variance_floor hmm in
        let seqs = used (obs_seq ∷ obs_seqs) (st_seq ∷ st_seqs) in
        let observed = all_labelled a (obs_seq ∷ obs_seqs) (st_seq ∷ st_seqs) in
        (fitted.start_prob a ≡ smoothed np gauss hmm.n_states alpha (λ s. all_starts s seqs) a)
        × (fitted.transition_matrix a b
            ≡ smoothed np gauss hmm.n_states alpha (λ t. all_occurrences a t seqs) b)
        × (fitted.means a ≡ mean_of np gauss (hmm.means a) observed)
        × (fitted.vars a ≡ vars_of np gauss variance_floor (hmm.vars a) observed)
  unfolding fit fit_counts
  fit-all_labelled obs_seq obs_seqs st_seq st_seqs alpha variance_floor hmm a b a_lt b_lt =
      let n = hmm.n_states in
      let oss = obs_seq ∷ obs_seqs in
      let sss = st_seq ∷ st_seqs in
      let observed = count_all-labelled n a a_lt oss sss no_counts in
      (
        smoothed-ext n a alpha _ _ a_lt
            (λ s s_lt. count_all-starts n s s_lt oss sss no_counts ∙ omega arith),
        smoothed-ext n b alpha _ _ b_lt
            (λ t t_lt. count_all-occurrences n a a_lt t oss sss no_counts t_lt ∙ omega arith),
        ap (mean_of np gauss (hmm.means a)) observed,
        ap (vars_of np gauss variance_floor (hmm.vars a)) observed,
      )
