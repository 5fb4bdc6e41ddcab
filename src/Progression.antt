-- ===== src/Progression.antt =====
-- forecasting/attack_progression.py: `AttackProgressionModel`, over the Markov chain of the stages.
pub mod Trend
use turbo_sh.Common.{
  ℕ, zero, suc, ◌+◌, ◌-◌, ◌==◌, List, [], ◌∷◌, map, Bool, true, false, ◌&&◌, Option, none, some, ℤ,
  pos, if◌then◌else◌, ltb, leb, max, length, get_elem?, take, drop, Float,
}
use turbo_sh.Markov.{MarkovChain, NumPy, state_index, uniform_chain, fit, predict_trajectory_proba}
use turbo_sh.Store.{Ref, Heap, StateStore, get_all_sequences}

-- `[s for s in recent_stages if 0 <= s < self.n_states]`
abbrev pub valid_stages : ℕ → List ℤ → List ℕ
valid_stages n [] = []
valid_stages n (s ∷ stages) = elim (state_index n s) [
  | none ↦ valid_stages n stages
  | some k ↦ k ∷ valid_stages n stages
]

-- `stages[-1]` and `max(stages)`, of a list that begins with `s`
abbrev pub last_stage : ℕ → List ℕ → ℕ
last_stage s [] = s
last_stage s (t ∷ stages) = last_stage t stages

abbrev pub max_stage : ℕ → List ℕ → ℕ
max_stage s [] = s
max_stage s (t ∷ stages) = max s (max_stage t stages)

-- The tests on the valid stages.
unfoldable pub rises : List ℕ → Bool
rises [] = false
rises (s ∷ []) = false
rises (s ∷ t ∷ stages) =
    let final = last_stage t stages in ltb s final && leb (max_stage s (t ∷ stages)) (final + 1)

unfoldable pub is_escalating : ℕ → List ℤ → Bool
unfolding rises
is_escalating n recent_stages =
    if ltb (length recent_stages) 2 then false else rises (valid_stages n recent_stages)

module _ {ℓ} {F : Type ℓ} ⦃f : Float F⦄ (np : NumPy F) where
  open f use {lt, of_nat}
  open np use {np_sum}

  -- The labels of a sequence of states; a missing label counts as NORMAL.
  unfoldable pub labels_of : {J : Type ℓ} → Heap F J → List Ref → List ℤ
  labels_of h [] = []
  labels_of h (r ∷ rs) = elim (h.cell r).label [
    | none ↦ pos 0 ∷ labels_of h rs
    | some l ↦ l ∷ labels_of h rs
  ]

  unfoldable pub from_state_store : {J : Type ℓ} → Heap F J → StateStore → F → MarkovChain F
  unfolding labels_of uniform_chain fit
  from_state_store h store smoothing_alpha =
      let state_seqs = map (labels_of h) (get_all_sequences 4 2 store) in
      if length state_seqs == 0
      then uniform_chain np 5
      else fit np state_seqs smoothing_alpha (uniform_chain np 5)

  -- The sum over a part of the row of a stage; `none` is an `IndexError`.
  unfoldable pub sum_of : (List F → List F) → ℕ → MarkovChain F → Option F
  sum_of part s m = elim (get_elem? m.transition_matrix s) [
    | none ↦ none
    | some probs ↦ some (np_sum (part probs))
  ]

  unfoldable pub get_escalation_probability : ℤ → MarkovChain F → Option F
  unfolding sum_of
  get_escalation_probability current_stage m = elim (state_index m.n_states current_stage) [
    | none ↦ some (of_nat 0)
    | some s ↦ if suc s == m.n_states then some (of_nat 0) else sum_of (drop (suc s)) s m
  ]

  unfoldable pub get_deescalation_probability : ℤ → MarkovChain F → Option F
  unfolding sum_of
  get_deescalation_probability current_stage m = elim (state_index m.n_states current_stage) [
    | none ↦ some (of_nat 0)
    | some s ↦ if s == 0 then some (of_nat 0) else sum_of (take s) s m
  ]

  unfoldable pub get_stability_probability : ℤ → MarkovChain F → Option F
  get_stability_probability current_stage m = elim (state_index m.n_states current_stage) [
    | none ↦ some (of_nat 1)
    | some s ↦ elim (get_elem? m.transition_matrix s) [
      | none ↦ none
      | some probs ↦ get_elem? probs s
    ]
  ]

  -- `max(keys, key=…)`: the first key with the greatest value, from `best` on.
  unfoldable pub best_from : ℕ → F → ℕ → List F → ℕ × F
  best_from best p i [] = (best, p)
  best_from best p i (q ∷ probs) =
      best_from (if lt p q then i else best) (if lt p q then q else p) (suc i) probs

  -- `none` is the `ValueError` of an empty distribution.
  unfoldable pub best_stages : List (List F) → Option (List (ℕ × F))
  unfolding best_from
  best_stages [] = some []
  best_stages ([] ∷ rest) = none
  best_stages ((p ∷ probs) ∷ rest) = elim (best_stages rest) [
    | none ↦ none
    | some out ↦ some (best_from 0 p 1 probs ∷ out)
  ]

  unfoldable pub get_likely_trajectory : ℤ → ℕ → MarkovChain F → Option (List (ℕ × F))
  unfolding best_stages
  get_likely_trajectory current_stage horizon m =
      elim (predict_trajectory_proba np current_stage horizon m) [
        | none ↦ none
        | some distributions ↦ best_stages distributions
      ]
