-- ===== src/Hmm/Decoding.antt =====
-- `viterbi` of forecasting/models/hmm_model.py.
use turbo_sh.Common.{
  ℕ, zero, suc, ◌==◌, false, some, All, ◌≤◌, ◌<◌, ◌≡◌, refl, sym, ap, ◌∙◌, List, [], ◌∷◌, ◌++◌,
  append-nil, append_assoc, true, length, length-append, All-append, Float, IsNumber, IsOrdered,
  arith,
}
use mathlib.Core.Path.{ap₂, subst}
use turbo_sh.Markov.{NumPy, tabulate}
use turbo_sh.Hmm.{
  Gaussian, HmmForecaster, log_start, log_trans, log_gaussian_pdf, log_emit, has_density,
  all_densities, decode, first_row, best_prev, next_row, forward, backtrack, viterbi,
}
use turbo_sh.Hmm.Paths.{
  IsArgmax, IsAdditive, IsPath, final, argmax-tabulate, step_score, score_from, path_score,
  score_from-append, final-append, final-lt,
}

backtrack-append :
    (back : List (ℕ → ℕ)) (s : ℕ) (path : List ℕ)
    → backtrack back s path ≡ backtrack back s [] ++ path
unfolding backtrack
backtrack-append [] s path = refl
backtrack-append (pointers ∷ back) s path =
    backtrack-append back (pointers s) (s ∷ path)
    ∙ sym (append_assoc (backtrack back (pointers s) []) (s ∷ []) path)
    ∙ ap (λ front. front ++ path) (sym (backtrack-append back (pointers s) (s ∷ [])))

-- The log-density of an observation is finite at each state.
abbrev pub IsDense {ℓ} :
    {F : Type ℓ} ⦃f : Float F⦄ (np : NumPy F) (gauss : Gaussian F) (IsFinite : F → Type 0)
    (hmm : HmmForecaster F)
    → List F
    → Type ℓ
IsDense np gauss IsFinite hmm obs =
    (s : ℕ)
    → s < hmm.n_states
    → (x : _) × (log_gaussian_pdf np gauss hmm obs s ≡ some x) × IsFinite x

module _ {ℓ} {F : Type ℓ} ⦃f : Float F⦄ (np : NumPy F) (gauss : Gaussian F) {IsFinite : F → Type 0}
    (argmax_law : IsArgmax np.np_argmax) (adds : IsAdditive IsFinite) (ordered : IsOrdered F)
    (hmm : HmmForecaster F) (some_state : 0 < hmm.n_states)
    (finite_trans : (s t : ℕ)
      → s < hmm.n_states
      → t < hmm.n_states
      → IsFinite (log_trans np gauss hmm s t)) where
  finite_emit :
      (obs : List F) (s : ℕ)
      → IsDense np gauss IsFinite hmm obs
      → s < hmm.n_states
      → IsFinite (log_emit np gauss hmm obs s)
  finite_emit obs s dense lt = let (x, found, finite) = dense s lt in rw (found, log_emit) finite

  -- `best_prev` is a state, and from no state is the step better.
  best_prev-greatest :
      (row : ℕ → F) (s : ℕ)
      → s < hmm.n_states
      → ((p : ℕ) → p < hmm.n_states → IsNumber (row p))
      → (best_prev np gauss hmm row s < hmm.n_states)
        × ((p : ℕ)
            → p < hmm.n_states
            → f.le (f.add (row p) (log_trans np gauss hmm p s)) (
                f.add
                  (row (best_prev np gauss hmm row s))
                  (log_trans np gauss hmm (best_prev np gauss hmm row s) s))
              ≡ true)
  unfolding best_prev
  best_prev-greatest row s s_lt numbers =
      argmax-tabulate argmax_law hmm.n_states (λ p. f.add (row p) (log_trans np gauss hmm p s))
        some_state (λ p lt. adds.add-number _ _ (numbers p lt) (finite_trans p s lt s_lt))

  next_row-greatest :
      (row : ℕ → F) (obs : List F) (x : F) (p s : ℕ)
      → IsDense np gauss IsFinite hmm obs
      → s < hmm.n_states
      → ((p : ℕ) → p < hmm.n_states → IsNumber (row p))
      → p < hmm.n_states
      → f.le x (row p) ≡ true
      → f.le (step_score np gauss hmm x p obs s) (next_row np gauss hmm row obs s) ≡ true
  unfolding next_row
  next_row-greatest row obs x p s dense s_lt numbers lt below =
      adds.add_mono _ _ _ (finite_emit obs s dense s_lt) (
        ordered.le_trans _ _ _ (adds.add_mono _ _ _ (finite_trans p s lt s_lt) below)
          ((best_prev-greatest row s s_lt numbers).1 p lt))

  next_row-numbers :
      (row : ℕ → F) (obs : List F)
      → IsDense np gauss IsFinite hmm obs
      → ((p : ℕ) → p < hmm.n_states → IsNumber (row p))
      → (s : ℕ) → s < hmm.n_states
      → IsNumber (next_row np gauss hmm row obs s)
  unfolding next_row
  next_row-numbers row obs dense numbers s lt =
      let (b_lt, _) = best_prev-greatest row s lt numbers in
      adds.add-number _ _ (adds.add-number _ _ (numbers _ b_lt) (finite_trans _ s b_lt lt))
        (finite_emit obs s dense lt)

  -- No path scores more than the last row has at its last state.
  forward-dominates :
      (row : ℕ → F) (observations : List (List F)) (back : List (ℕ → ℕ)) (x : F) (p : ℕ)
      (path : List ℕ)
      → All (IsDense np gauss IsFinite hmm) observations
      → ((p : ℕ) → p < hmm.n_states → IsNumber (row p))
      → p < hmm.n_states
      → f.le x (row p) ≡ true
      → IsPath hmm.n_states (length observations) path
      → f.le
          (score_from np gauss hmm x p observations path)
          ((forward np gauss hmm row observations back).0 (final p path))
        ≡ true
  unfolding forward
  forward-dominates row [] back x p [] dense numbers lt below is_path = below
  forward-dominates row [] back x p (s ∷ path) dense numbers lt below (same, _) =
      absurd (omega arith)
  forward-dominates row (obs ∷ os) back x p [] dense numbers lt below (same, _) =
      absurd (omega arith)
  forward-dominates row (obs ∷ os) back x p (s ∷ path) (here, dense) numbers lt below
        (same, (s_lt, rest)) =
      forward-dominates (next_row np gauss hmm row obs) os (best_prev np gauss hmm row ∷ back) _ s
        path dense (next_row-numbers row obs here numbers) s_lt
        (next_row-greatest row obs x p s here s_lt numbers lt below) (omega arith, rest)

  forward-numbers :
      (row : ℕ → F) (observations : List (List F)) (back : List (ℕ → ℕ))
      → All (IsDense np gauss IsFinite hmm) observations
      → ((p : ℕ) → p < hmm.n_states → IsNumber (row p))
      → (s : ℕ) → s < hmm.n_states
      → IsNumber ((forward np gauss hmm row observations back).0 s)
  unfolding forward
  forward-numbers row [] back dense numbers = numbers
  forward-numbers row (obs ∷ os) back (here, dense) numbers =
      forward-numbers (next_row np gauss hmm row obs) os (best_prev np gauss hmm row ∷ back) dense
        (next_row-numbers row obs here numbers)

  -- The pointers lead from a state to a path that scores what the row has at the state.
  abbrev Reached : (ℕ → F) → List (ℕ → ℕ) → List F → List (List F) → ℕ → Type ℓ
  Reached row back obs seen s =
      (p : ℕ) × (path : List ℕ) × (backtrack back s [] ≡ p ∷ path)
      × (p < hmm.n_states)
      × IsPath hmm.n_states (length seen) path
      × (final p path ≡ s)
      × (score_from np gauss hmm (first_row np gauss hmm obs p) p seen path ≡ row s)

  next_row-Reached :
      (row : ℕ → F) (back : List (ℕ → ℕ)) (obs o : List F) (seen : List (List F)) (s : ℕ)
      → ((p : ℕ) → p < hmm.n_states → IsNumber (row p))
      → ((p : ℕ) → p < hmm.n_states → Reached row back obs seen p)
      → s < hmm.n_states
      → Reached
          (next_row np gauss hmm row o)
          (best_prev np gauss hmm row ∷ back)
          obs
          (seen ++ o ∷ [])
          s
  unfolding next_row backtrack
  next_row-Reached row back obs o seen s numbers reached s_lt =
      let b = best_prev np gauss hmm row s in
      let (b_lt, _) = best_prev-greatest row s s_lt numbers in
      let (p, path, leads, p_lt, (same, states), ends, score) = reached b b_lt in
      (
        p,
        path ++ s ∷ [],
        backtrack-append back b (s ∷ []) ∙ ap (λ front. front ++ s ∷ []) leads,
        p_lt,
        (
          omega (arith, length-append path (s ∷ []), length-append seen (o ∷ []), same),
          All-append (λ t. t < hmm.n_states) path (s ∷ []) states (s_lt, tt),
        ),
        final-append p path s,
        score_from-append np gauss hmm (first_row np gauss hmm obs p) p seen path o s same
            ∙ ap₂ (λ x q. step_score np gauss hmm x q o s) score ends,
      )

  forward-Reached :
      (row : ℕ → F) (back : List (ℕ → ℕ)) (obs : List F) (seen rest : List (List F))
      → All (IsDense np gauss IsFinite hmm) rest
      → ((p : ℕ) → p < hmm.n_states → IsNumber (row p))
      → ((p : ℕ) → p < hmm.n_states → Reached row back obs seen p)
      → (s : ℕ) → s < hmm.n_states
      → Reached
          (forward np gauss hmm row rest back).0
          (forward np gauss hmm row rest back).1
          obs
          (seen ++ rest)
          s
  unfolding forward
  forward-Reached row back obs seen [] dense numbers reached s lt =
      subst (λ all. Reached row back obs all s) (sym (append-nil seen)) (reached s lt)
  forward-Reached row back obs seen (o ∷ rest) (here, dense) numbers reached s lt =
      let row' = next_row np gauss hmm row o in
      let back' = best_prev np gauss hmm row ∷ back in
      subst
        (λ all.
          Reached (forward np gauss hmm row' rest back').0 (forward np gauss hmm row' rest back').1
            obs all s)
        (append_assoc seen (o ∷ []) rest)
        (forward-Reached row' back' obs (seen ++ o ∷ []) rest dense
          (next_row-numbers row o here numbers)
          (λ p p_lt. next_row-Reached row back obs o seen p numbers reached p_lt) s lt)

  first_row-numbers :
      (obs : List F)
      → IsDense np gauss IsFinite hmm obs
      → ((s : ℕ) → s < hmm.n_states → IsFinite (log_start np gauss hmm s))
      → (s : ℕ) → s < hmm.n_states
      → IsNumber (first_row np gauss hmm obs s)
  unfolding first_row
  first_row-numbers obs dense finite_start s lt =
      adds.add-number _ _ (adds.number_of_finite _ (finite_start s lt)) (finite_emit obs s dense lt)

  has_density-true :
      (n : ℕ) (obs : List F)
      → n ≤ hmm.n_states
      → IsDense np gauss IsFinite hmm obs
      → has_density np gauss hmm n obs ≡ true
  has_density-true zero obs le dense = refl
  has_density-true (suc n) obs le dense =
      let (x, found, _) = dense n (omega arith) in
      rw (found, has_density) (has_density-true n obs (omega arith) dense)

  all_densities-true :
      (observations : List (List F))
      → All (IsDense np gauss IsFinite hmm) observations
      → all_densities np gauss hmm observations ≡ true
  all_densities-true [] dense = refl
  all_densities-true (obs ∷ observations) (here, dense) =
      rw (has_density-true hmm.n_states obs (omega arith) here, all_densities)
        (all_densities-true observations dense)

  viterbi-decode :
      (obs : List F) (observations : List (List F))
      → All (IsDense np gauss IsFinite hmm) (obs ∷ observations)
      → viterbi np gauss hmm (obs ∷ observations) ≡ some (decode np gauss hmm obs observations)
  unfolding viterbi
  viterbi-decode obs observations dense =
      let states : (hmm.n_states == 0) ≡ false = ground arith in
      rw (states, all_densities-true (obs ∷ observations) dense, viterbi) refl

  decode-greatest :
      (obs : List F) (observations : List (List F)) (path : List ℕ)
      → All (IsDense np gauss IsFinite hmm) (obs ∷ observations)
      → ((s : ℕ) → s < hmm.n_states → IsFinite (log_start np gauss hmm s))
      → IsPath hmm.n_states (suc (length observations)) path
      → let found = decode np gauss hmm obs observations in
        IsPath hmm.n_states (suc (length observations)) found
        × (f.le
              (path_score np gauss hmm (obs ∷ observations) path)
              (path_score np gauss hmm (obs ∷ observations) found)
            ≡ true)
  unfolding decode backtrack
  decode-greatest obs observations [] dense finite_start (same, _) = absurd (omega arith)
  decode-greatest obs observations (s ∷ path) (here, dense) finite_start (same, (s_lt, states)) =
      let numbers = first_row-numbers obs here finite_start in
      let row = first_row np gauss hmm obs in
      let (last_row, back) = forward np gauss hmm row observations [] in
      let (best_lt, best) =
        argmax-tabulate argmax_law hmm.n_states last_row some_state
          (forward-numbers row observations [] dense numbers) in
      let (p, rest, leads, p_lt, (rest_same, rest_states), ends, score) =
        forward-Reached row [] obs [] observations dense numbers
          (λ q lt. (q, [], refl, lt, (refl, tt), refl, refl))
          (np.np_argmax (tabulate 0 hmm.n_states last_row)) best_lt in
      rw leads (
        (omega arith, (p_lt, rest_states)),
        rw score (
            ordered.le_trans _ _ _
              (forward-dominates row observations [] (row s) s path dense numbers s_lt
                (numbers s s_lt) (omega arith, states))
              (best (final s path) (final-lt hmm.n_states s path s_lt states))),
      )

  -- `viterbi` returns a path with a valid state for each observation, and no other such path has a
  -- greater log-probability. This is when there is a state, the log-probabilities of the start and of
  -- the transitions between states are finite, and each given observation has a finite log-density at
  -- each state; `argmax` finds a greatest entry, and adding a finite value keeps the order.
  pub viterbi-greatest :
      (obs : List F) (observations : List (List F)) (path : List ℕ)
      → All (IsDense np gauss IsFinite hmm) (obs ∷ observations)
      → ((s : ℕ) → s < hmm.n_states → IsFinite (log_start np gauss hmm s))
      → IsPath hmm.n_states (suc (length observations)) path
      → (found : List ℕ) × (viterbi np gauss hmm (obs ∷ observations) ≡ some found)
        × IsPath hmm.n_states (suc (length observations)) found
        × (f.le
              (path_score np gauss hmm (obs ∷ observations) path)
              (path_score np gauss hmm (obs ∷ observations) found)
            ≡ true)
  viterbi-greatest obs observations path dense finite_start is_path =
      let (valid, greatest) = decode-greatest obs observations path dense finite_start is_path in
      (decode np gauss hmm obs observations, viterbi-decode obs observations dense, valid, greatest)
