-- ===== src/Markov.antt =====
-- forecasting/models/markov_chain.py: `MarkovChain`, the transitions between attack stages. The
-- arithmetic of NumPy on rows and vectors is a parameter.
pub mod Counts
pub mod Trajectories
use turbo_sh.Common.{
  ℕ, zero, suc, ◌==◌, List, [], ◌∷◌, map, Bool, true, false, Option, none, some, ℤ, pos, negsuc,
  if◌then◌else◌, ltb, leb, take, length, replicate, get_elem?, Float,
}

-- `[f(i) for i in range(i, i + n)]`
abbrev pub tabulate {ℓ} : {A : Type ℓ} → ℕ → ℕ → (ℕ → A) → List A
tabulate i zero f = []
tabulate i (suc n) f = f i ∷ tabulate (suc i) n f

-- `xs[k] = g(xs[k])`
abbrev pub modify {ℓ} : {A : Type ℓ} → ℕ → (A → A) → List A → List A
modify k g [] = []
modify zero g (x ∷ xs) = g x ∷ xs
modify (suc k) g (x ∷ xs) = x ∷ modify k g xs

-- `0 <= s < self.n_states`, with the stage as an index
abbrev pub state_index : ℕ → ℤ → Option ℕ
state_index n (pos s) = if ltb s n then some s else none
state_index n (negsuc s) = none

-- The `counts` of `fit`: whole numbers, in floats.
unfoldable pub count_pair : ℕ → ℤ → ℤ → List (List ℕ) → List (List ℕ)
count_pair n from_state to_state counts = elim (state_index n from_state) [
  | none ↦ counts
  | some i ↦ elim (state_index n to_state) [
    | none ↦ counts
    | some j ↦ modify i (modify j suc) counts
  ]
]

unfoldable pub count_sequence : ℕ → List ℤ → List (List ℕ) → List (List ℕ)
unfolding count_pair
count_sequence n [] counts = counts
count_sequence n (s ∷ []) counts = counts
count_sequence n (s ∷ t ∷ seq) counts = count_sequence n (t ∷ seq) (count_pair n s t counts)

unfoldable pub count_sequences : ℕ → List (List ℤ) → List (List ℕ) → List (List ℕ)
unfolding count_sequence
count_sequences n [] counts = counts
count_sequences n (seq ∷ seqs) counts = count_sequences n seqs (count_sequence n seq counts)

pub record MarkovChain {ℓ} (F : Type ℓ) : Type ℓ where
  pub n_states : ℕ
  pub transition_matrix : List (List F)
  pub is_fitted : Bool

-- NumPy's sum of an array, index of its greatest entry, and product of a vector and a matrix, which
-- is `none` where the sizes differ and NumPy raises.
pub record NumPy {ℓ} (F : Type ℓ) : Type ℓ where
  pub np_sum : List F → F
  pub np_argmax : List F → ℕ
  pub vec_mat : List F → List (List F) → Option (List F)

module _ {ℓ} {F : Type ℓ} ⦃f : Float F⦄ (np : NumPy F) where
  open f use {add, div, of_nat}
  open np use {np_sum, np_argmax, vec_mat}

  -- `__init__`
  unfoldable pub uniform_chain : ℕ → MarkovChain F
  uniform_chain n = record {
    n_states = n;
    transition_matrix = replicate n (replicate n (div (of_nat 1) (of_nat n)));
    is_fitted = false;
  }

  -- A row of the counts, smoothed and divided by its sum.
  abbrev pub smoothed_row : F → List ℕ → List F
  smoothed_row alpha counts =
      let smoothed = map (λ c. add (of_nat c) alpha) counts in
      map (λ x. div x (np_sum smoothed)) smoothed

  unfoldable pub fit : List (List ℤ) → F → MarkovChain F → MarkovChain F
  fit state_sequences smoothing_alpha m =
      let n = m.n_states in
      let counts = count_sequences n state_sequences (replicate n (replicate n 0)) in
      record m { transition_matrix = map (smoothed_row smoothing_alpha) counts; is_fitted = true }

  -- `transition_matrix[s]`; `none` is an `IndexError`
  unfoldable pub predict : ℤ → MarkovChain F → Option ℕ
  predict current_state m = elim (state_index m.n_states current_state) [
    | none ↦ some 0
    | some s ↦ elim (get_elem? m.transition_matrix s) [
      | none ↦ none
      | some row ↦ some (np_argmax row)
    ]
  ]

  -- The dictionary of `predict_proba`, as the list of its values from key 0 on.
  unfoldable pub predict_proba : ℤ → MarkovChain F → Option (List F)
  predict_proba current_state m = elim (state_index m.n_states current_state) [
    | none ↦ some (replicate m.n_states (div (of_nat 1) (of_nat m.n_states)))
    | some s ↦ get_elem? m.transition_matrix s
  ]

  -- The one-hot vector of a state.
  abbrev pub one_hot : ℕ → ℕ → List F
  one_hot n s = tabulate 0 n (λ i. if i == s then of_nat 1 else of_nat 0)

  -- `{s: float(state_vec[s]) for s in range(self.n_states)}`; `none` is an `IndexError`.
  unfoldable pub entries : ℕ → List F → Option (List F)
  entries n state_vec = if leb n (length state_vec) then some (take n state_vec) else none

  -- The loops of the two forecasts.
  unfoldable pub trajectory : ℕ → List (List F) → List F → Option (List ℕ)
  trajectory zero matrix state_vec = some []
  trajectory (suc steps) matrix state_vec = elim (vec_mat state_vec matrix) [
    | none ↦ none
    | some next ↦ elim (trajectory steps matrix next) [
      | none ↦ none
      | some stages ↦ some (np_argmax next ∷ stages)
    ]
  ]

  unfoldable pub distributions : ℕ → ℕ → List (List F) → List F → Option (List (List F))
  unfolding entries
  distributions n zero matrix state_vec = some []
  distributions n (suc steps) matrix state_vec = elim (vec_mat state_vec matrix) [
    | none ↦ none
    | some next ↦ elim (entries n next) [
      | none ↦ none
      | some probs ↦ elim (distributions n steps matrix next) [
        | none ↦ none
        | some rest ↦ some (probs ∷ rest)
      ]
    ]
  ]

  unfoldable pub predict_trajectory : ℤ → ℕ → MarkovChain F → Option (List ℕ)
  unfolding trajectory
  predict_trajectory current_state steps m = elim (state_index m.n_states current_state) [
    | none ↦ some (replicate steps 0)
    | some s ↦ trajectory steps m.transition_matrix (one_hot m.n_states s)
  ]

  unfoldable pub predict_trajectory_proba : ℤ → ℕ → MarkovChain F → Option (List (List F))
  unfolding distributions
  predict_trajectory_proba current_state steps m = elim (state_index m.n_states current_state) [
    | none ↦ some (replicate steps (replicate m.n_states (div (of_nat 1) (of_nat m.n_states))))
    | some s ↦ distributions m.n_states steps m.transition_matrix (one_hot m.n_states s)
  ]
