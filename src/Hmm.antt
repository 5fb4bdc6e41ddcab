-- ===== src/Hmm.antt =====
-- forecasting/models/hmm_model.py: `HMMForecaster`, a hidden Markov model with Gaussian emissions.
-- An array with one entry for each state is a function on the states; NumPy is a parameter.
pub mod Paths
pub mod Decoding
pub mod Counting
pub mod Fitting
use turbo_sh.Common.{
  ℕ, zero, suc, ◌+◌, ◌==◌, List, [], ◌∷◌, ◌++◌, map, Bool, true, false, not, ◌&&◌, Option, none,
  some, ℤ, if◌then◌else◌, length, Float,
}
use turbo_sh.DataLoader.{broadcast}
use turbo_sh.Markov.{NumPy, state_index, tabulate, one_hot, trajectory, distributions}

-- The functions of NumPy on arrays of observations: by entry, and by column.
pub record Gaussian {ℓ} (F : Type ℓ) : Type ℓ where
  pub np_log : F → F
  pub np_pi : F
  pub np_maximum : F → F → F
  pub np_mean : List (List F) → List F
  pub np_var : List (List F) → List F

pub record HmmForecaster {ℓ} (F : Type ℓ) : Type ℓ where
  pub n_states : ℕ
  pub n_features : ℕ
  pub start_prob : ℕ → F
  pub transition_matrix : ℕ → ℕ → F
  pub means : ℕ → List F
  pub vars : ℕ → List F
  pub is_fitted : Bool

-- The number of states from the two arguments of `__init__`.
unfoldable pub resolve_states : (n_hidden_states n_states : Option ℕ) → ℕ
resolve_states none (some n) = n
resolve_states (some n) _ = n
resolve_states none none = 5

-- `0 <= s < self.n_states`
abbrev pub is_state : ℕ → ℕ → ℤ → Bool
is_state n a s = elim (state_index n s) [ none ↦ false | some k ↦ k == a ]

-- `counts[a] += 1` and `counts[a, b] += 1`, where the states are valid
abbrev pub count_start : ℕ → ℤ → (ℕ → ℕ) → ℕ → ℕ
count_start n s counts a = if is_state n a s then suc (counts a) else counts a

abbrev pub count_transition : ℕ → ℤ → ℤ → (ℕ → ℕ → ℕ) → ℕ → ℕ → ℕ
count_transition n s s_next counts a b =
    if is_state n a s && is_state n b s_next then suc (counts a b) else counts a b

-- `state_observations[s].append(obs)`, where the state is valid
abbrev pub add_observation {ℓ} : {O : Type ℓ} → ℕ → ℤ → O → (ℕ → List O) → ℕ → List O
add_observation n s obs buckets a = if is_state n a s then buckets a ++ obs ∷ [] else buckets a

-- What the first pass of `fit` collects.
pub record Counts {ℓ} (O : Type ℓ) : Type ℓ where
  pub start_counts : ℕ → ℕ
  pub trans_counts : ℕ → ℕ → ℕ
  pub state_observations : ℕ → List O

abbrev pub no_counts {ℓ} : {O : Type ℓ} → Counts O
no_counts = record { start_counts = λ a. 0; trans_counts = λ a b. 0; state_observations = λ a. [] }

-- The loop over a sequence: each observation, and each transition to the next state.
unfoldable pub count_steps {ℓ} : {O : Type ℓ} → ℕ → List ℤ → List O → Counts O → Counts O
count_steps n [] obs_seq c = c
count_steps n (s ∷ st_seq) [] c = c
count_steps n (s ∷ []) (obs ∷ obs_seq) c = record c {
  state_observations = add_observation n s obs c.state_observations;
}
count_steps n (s ∷ s_next ∷ st_seq) (obs ∷ obs_seq) c =
    count_steps n (s_next ∷ st_seq) obs_seq (record c {
      state_observations = add_observation n s obs c.state_observations;
      trans_counts = count_transition n s s_next c.trans_counts;
    })

-- A pair of sequences; one without states, or of another length, is passed over.
unfoldable pub count_pair_of {ℓ} : {O : Type ℓ} → ℕ → List O → List ℤ → Counts O → Counts O
unfolding count_steps
count_pair_of n obs_seq [] c = c
count_pair_of n obs_seq (s ∷ st_seq) c =
    if length (s ∷ st_seq) == length obs_seq
    then count_steps n (s ∷ st_seq) obs_seq
        (record c { start_counts = count_start n s c.start_counts })
    else c

unfoldable pub count_all {ℓ} :
    {O : Type ℓ} → ℕ → List (List O) → List (List ℤ) → Counts O → Counts O
unfolding count_pair_of
count_all n [] st_seqs c = c
count_all n (obs_seq ∷ obs_seqs) [] c = c
count_all n (obs_seq ∷ obs_seqs) (st_seq ∷ st_seqs) c =
    count_all n obs_seqs st_seqs (count_pair_of n obs_seq st_seq c)

-- The path that leads to a state.
unfoldable pub backtrack : List (ℕ → ℕ) → ℕ → List ℕ → List ℕ
backtrack [] s path = s ∷ path
backtrack (pointers ∷ back) s path = backtrack back (pointers s) (s ∷ path)

-- `path[-1]`
abbrev pub last_of : List ℕ → ℕ
last_of [] = 0
last_of (s ∷ []) = s
last_of (s ∷ t ∷ path) = last_of (t ∷ path)

module _ {ℓ} {F : Type ℓ} ⦃f : Float F⦄ (np : NumPy F) (gauss : Gaussian F) where
  open f use {add, sub, mul, div, of_nat, ratio}
  open np use {np_sum, np_argmax}
  open gauss use {np_log, np_pi, np_maximum, np_mean, np_var}

  -- `__init__`
  unfoldable pub new_hmm : Option ℕ → ℕ → Option ℕ → HmmForecaster F
  unfolding resolve_states
  new_hmm n_hidden_states n_features n_states =
      let n = resolve_states n_hidden_states n_states in
      record {
        n_states = n;
        n_features = n_features;
        start_prob = λ s. div (of_nat 1) (of_nat n);
        transition_matrix = λ s t. div (of_nat 1) (of_nat n);
        means = λ s. tabulate 0 n_features (λ d. mul (of_nat s) (ratio 2 10));
        vars = λ s. tabulate 0 n_features (λ d. of_nat 1);
        is_fitted = false;
      }

  -- Counts, smoothed and divided by their sum.
  abbrev pub smoothed : ℕ → F → (ℕ → ℕ) → ℕ → F
  smoothed n alpha counts a =
      div (add (of_nat (counts a)) alpha)
        (np_sum (tabulate 0 n (λ b. add (of_nat (counts b)) alpha)))

  abbrev pub floored : F → List F → List F
  floored variance_floor variances = map (λ v. np_maximum v variance_floor) variances

  -- The mean and the variances of a state from its observations.
  abbrev pub mean_of : List F → List (List F) → List F
  mean_of mean [] = mean
  mean_of mean (obs ∷ obs_list) = np_mean (obs ∷ obs_list)

  abbrev pub vars_of : F → List F → List (List F) → List F
  vars_of variance_floor vars [] = floored variance_floor vars
  vars_of variance_floor vars (obs ∷ obs_list) = floored variance_floor (np_var (obs ∷ obs_list))

  -- The parameters from the counts.
  unfoldable pub fit_counts : F → F → Counts (List F) → HmmForecaster F → HmmForecaster F
  fit_counts smoothing_alpha variance_floor c hmm =
      let n = hmm.n_states in
      record hmm {
        start_prob = smoothed n smoothing_alpha c.start_counts;
        transition_matrix = λ a. smoothed n smoothing_alpha (c.trans_counts a);
        means = λ s. mean_of (hmm.means s) (c.state_observations s);
        vars = λ s. vars_of variance_floor (hmm.vars s) (c.state_observations s);
        is_fitted = true;
      }

  unfoldable pub fit :
      List (List (List F)) → List (List ℤ) → F → F → HmmForecaster F → HmmForecaster F
  unfolding fit_counts count_all
  fit obs_seqs [] smoothing_alpha variance_floor hmm = hmm
  fit [] (st_seq ∷ st_seqs) smoothing_alpha variance_floor hmm = hmm
  fit (obs_seq ∷ obs_seqs) (st_seq ∷ st_seqs) smoothing_alpha variance_floor hmm =
      fit_counts smoothing_alpha variance_floor
        (count_all hmm.n_states (obs_seq ∷ obs_seqs) (st_seq ∷ st_seqs) no_counts) hmm

  -- `np.log(2.0 * np.pi * var)`
  abbrev pub log_variances : List F → List F
  log_variances var = map (λ v. np_log (mul (mul (of_nat 2) np_pi) v)) var

  -- `none` is the `ValueError` of an observation whose number of features does not fit.
  unfoldable pub log_gaussian_pdf : HmmForecaster F → List F → ℕ → Option F
  unfolding broadcast
  log_gaussian_pdf hmm obs s = elim (broadcast sub obs (hmm.means s)) [
    | none ↦ none
    | some diff ↦ elim (broadcast div (map (λ d. mul d d) diff) (hmm.vars s)) [
      | none ↦ none
      | some quotients ↦ elim (broadcast add (log_variances (hmm.vars s)) quotients) [
        | none ↦ none
        | some summands ↦ some (mul (sub (of_nat 0) (ratio 5 10)) (np_sum summands))
      ]
    ]
  ]

  -- `log_emit`, where it does not raise
  abbrev pub log_emit : HmmForecaster F → List F → ℕ → F
  log_emit hmm obs s = elim (log_gaussian_pdf hmm obs s) [ none ↦ of_nat 0 | some x ↦ x ]

  -- Whether no state raises at an observation.
  abbrev pub has_density : HmmForecaster F → ℕ → List F → Bool
  has_density hmm zero obs = true
  has_density hmm (suc s) obs = elim (log_gaussian_pdf hmm obs s) [
    | none ↦ false
    | some x ↦ has_density hmm s obs
  ]

  abbrev pub all_densities : HmmForecaster F → List (List F) → Bool
  all_densities hmm [] = true
  all_densities hmm (obs ∷ observations) =
      has_density hmm hmm.n_states obs && all_densities hmm observations

  -- `np.log(np.maximum(p, 1e-12))`
  abbrev pub log_floored : F → F
  log_floored p = np_log (np_maximum p (ratio 1 1_000_000_000_000))

  abbrev pub log_start : HmmForecaster F → ℕ → F
  log_start hmm s = log_floored (hmm.start_prob s)

  abbrev pub log_trans : HmmForecaster F → ℕ → ℕ → F
  log_trans hmm s t = log_floored (hmm.transition_matrix s t)

  -- A row of `viterbi_table`, and the pointers of a row of `backpointer`.
  unfoldable pub first_row : HmmForecaster F → List F → ℕ → F
  first_row hmm obs s = add (log_start hmm s) (log_emit hmm obs s)

  unfoldable pub best_prev : HmmForecaster F → (ℕ → F) → ℕ → ℕ
  best_prev hmm row s = np_argmax (tabulate 0 hmm.n_states (λ p. add (row p) (log_trans hmm p s)))

  -- `prev_scores[best_prev] + log_emit`
  unfoldable pub next_row : HmmForecaster F → (ℕ → F) → List F → ℕ → F
  unfolding best_prev
  next_row hmm row obs s =
      let b = best_prev hmm row s in add (add (row b) (log_trans hmm b s)) (log_emit hmm obs s)

  -- The recursion over the observations; the rows of pointers are kept latest first.
  unfoldable pub forward :
      HmmForecaster F → (ℕ → F) → List (List F) → List (ℕ → ℕ) → (ℕ → F) × List (ℕ → ℕ)
  forward hmm row [] back = (row, back)
  forward hmm row (obs ∷ observations) back =
      forward hmm (next_row hmm row obs) observations (best_prev hmm row ∷ back)

  -- The best path of a sequence whose densities are there.
  unfoldable pub decode : HmmForecaster F → List F → List (List F) → List ℕ
  unfolding forward backtrack
  decode hmm obs observations =
      let (row, back) = forward hmm (first_row hmm obs) observations [] in
      backtrack back (np_argmax (tabulate 0 hmm.n_states row)) []

  -- `none` is the `ValueError` of a number of features that does not fit, or of the `argmax` over no
  -- state.
  unfoldable pub viterbi : HmmForecaster F → List (List F) → Option (List ℕ)
  unfolding decode
  viterbi hmm [] = some []
  viterbi hmm (obs ∷ observations) =
      if not (hmm.n_states == 0) && all_densities hmm (obs ∷ observations)
      then some (decode hmm obs observations)
      else none

  unfoldable pub predict : HmmForecaster F → List (List F) → Option ℕ
  unfolding viterbi
  predict hmm observations = elim (viterbi hmm observations) [
    | none ↦ none
    | some path ↦ some (last_of path)
  ]

  abbrev pub matrix_of : HmmForecaster F → List (List F)
  matrix_of hmm = tabulate 0 hmm.n_states (λ a. tabulate 0 hmm.n_states (hmm.transition_matrix a))

  -- The projections of the current state; the loops are those of the Markov chain.
  unfoldable pub forecast : HmmForecaster F → List (List F) → ℕ → Option (List ℕ)
  unfolding predict
  forecast hmm observations steps = elim (predict hmm observations) [
    | none ↦ none
    | some current_state ↦
        trajectory np steps (matrix_of hmm) (one_hot np hmm.n_states current_state)
  ]

  unfoldable pub forecast_proba : HmmForecaster F → List (List F) → ℕ → Option (List (List F))
  unfolding predict
  forecast_proba hmm observations steps = elim (predict hmm observations) [
    | none ↦ none
    | some current_state ↦
        distributions np hmm.n_states steps (matrix_of hmm) (one_hot np hmm.n_states current_state)
  ]
