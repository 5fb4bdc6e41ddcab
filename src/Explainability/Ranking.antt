-- ===== src/Explainability/Ranking.antt =====
-- The order of `top_features` in the explanations of forecasting/explainability.py.
use turbo_sh.Common.{
  ℕ, ◌≤◌, ◌≡◌, refl, List, [], ◌∷◌, String, Bool-cases, true, some, pos, get_elem?, All, Float,
  IsNumber, IsOrdered, le_of-lt, le_of_not-lt, inl, inr, Bool, ap, if◌then◌else◌, false, ◌<◌, ◌-◌,
  arith,
}
use mathlib.Core.Path.{subst⁻¹}
use mathlib.Core.List.{Permᴰ}
use mathlib.Core.List.Permᴰ
use turbo_sh.Markov.{NumPy}
use turbo_sh.DataLoader.{Array, rows2}
use turbo_sh.Mitre.{map_stage_to_techniques}
use turbo_sh.Neural.Lstm.{predict_proba}
use turbo_sh.Hmm.Paths.{IsArgmax}
use turbo_sh.Explainability.{
  Autograd, Explainer, ForecastExplanation, attribute_features, insert_desc, sort_desc,
  explanation_of, explain, out_of_range,
}

module _ {ℓ} {F : Type ℓ} ⦃f : Float F⦄ where
  -- No later feature has a greater score.
  abbrev pub IsDescending : List (String × F) → Type 0
  IsDescending [] = Unit
  IsDescending (e ∷ items) = All (λ x. f.le x.1 e.1 ≡ true) items × IsDescending items

  insert_desc-nil : (e : String × F) → insert_desc e [] ≡ e ∷ []
  unfolding insert_desc
  insert_desc-nil e = refl

  insert_desc-cons :
      (e x : String × F) (xs : List (String × F)) (b : Bool)
      → f.lt e.1 x.1 ≡ b
      → insert_desc e (x ∷ xs) ≡ (if b then x ∷ insert_desc e xs else e ∷ x ∷ xs)
  unfolding insert_desc
  insert_desc-cons e x xs b h = ap (λ b. if b then x ∷ insert_desc e xs else e ∷ x ∷ xs) h

  -- Sorted, with the same entries.
  abbrev pub IsRanking : List (String × F) → List (String × F) → Type ℓ
  IsRanking items sorted = Permᴰ sorted items × IsDescending sorted

  All-insert_desc {κ} :
      (P : String × F → Type κ) (e : String × F) (xs : List (String × F))
      → P e
      → All P xs
      → All P (insert_desc e xs)
  All-insert_desc P e [] here all = subst⁻¹ (All P) (insert_desc-nil e) (here, tt)
  All-insert_desc P e (x ∷ xs) here (p, all) = elim (Bool-cases (f.lt e.1 x.1)) [
    | inl later ↦
        subst⁻¹ (All P) (insert_desc-cons e x xs true later) (p, All-insert_desc P e xs here all)
    | inr first ↦ subst⁻¹ (All P) (insert_desc-cons e x xs false first) (here, (p, all))
  ]

  insert_desc-Perm : (e : String × F) (xs : List (String × F)) → Permᴰ (insert_desc e xs) (e ∷ xs)
  insert_desc-Perm e [] = subst⁻¹ (λ l. Permᴰ l (e ∷ [])) (insert_desc-nil e) (Permᴰ.refl (e ∷ []))
  insert_desc-Perm e (x ∷ xs) = elim (Bool-cases (f.lt e.1 x.1)) [
    | inl later ↦
        subst⁻¹ (λ l. Permᴰ l (e ∷ x ∷ xs)) (insert_desc-cons e x xs true later)
          (Permᴰ.trans (Permᴰ.cons refl (insert_desc-Perm e xs)) (Permᴰ.swap refl refl))
    | inr first ↦
        subst⁻¹ (λ l. Permᴰ l (e ∷ x ∷ xs)) (insert_desc-cons e x xs false first)
          (Permᴰ.refl (e ∷ x ∷ xs))
  ]

  module _ (ordered : IsOrdered F) where
    below :
        (a b : F) (xs : List (String × F))
        → f.le a b ≡ true
        → All (λ x. f.le x.1 a ≡ true) xs
        → All (λ x. f.le x.1 b ≡ true) xs
    below a b [] le all = tt
    below a b (x ∷ xs) le (here, all) = (ordered.le_trans x.1 a b here le, below a b xs le all)

    insert_desc-IsDescending :
        (e : String × F) (xs : List (String × F))
        → IsNumber e.1
        → All (λ x. IsNumber x.1) xs
        → IsDescending xs
        → IsDescending (insert_desc e xs)
    insert_desc-IsDescending e [] num nums desc = subst⁻¹ IsDescending (insert_desc-nil e) (tt, tt)
    insert_desc-IsDescending e (x ∷ xs) num (x_num, nums) (top, desc) =
        elim (Bool-cases (f.lt e.1 x.1)) [
          | inl later ↦ subst⁻¹ IsDescending (insert_desc-cons e x xs true later) (
            All-insert_desc (λ y. f.le y.1 x.1 ≡ true) e xs
                (le_of-lt ordered e.1 x.1 num x_num later) top,
            insert_desc-IsDescending e xs num nums desc,
          )
          | inr first ↦
              let le = le_of_not-lt ordered e.1 x.1 num x_num first in
              subst⁻¹ IsDescending (insert_desc-cons e x xs false first)
                ((le, below x.1 e.1 xs le top), (top, desc))
        ]

    sort_desc-IsRanking :
        (items : List (String × F))
        → All (λ x. IsNumber x.1) items
        → IsRanking items (sort_desc items) × All (λ x. IsNumber x.1) (sort_desc items)
    unfolding sort_desc
    sort_desc-IsRanking [] nums = ((Permᴰ.nil, tt), tt)
    sort_desc-IsRanking (e ∷ items) (num, nums) =
        let ((perm, desc), sorted_nums) = sort_desc-IsRanking items nums in
        (
          (
            Permᴰ.trans (insert_desc-Perm e (sort_desc items)) (Permᴰ.cons refl perm),
            insert_desc-IsDescending e (sort_desc items) num sorted_nums desc,
          ),
          All-insert_desc (λ x. IsNumber x.1) e (sort_desc items) num sorted_nums,
        )

in_range {ℓ} :
    {F : Type ℓ} (explainer : Explainer F) (h : ℕ)
    → 0 < h
    → h ≤ explainer.model.forecast_horizon
    → out_of_range explainer h ≡ false
in_range explainer h low high = ground arith

module _ {ℓ} {F : Type ℓ} ⦃f : Float F⦄ (np : NumPy F) (softmax : List F → List F)
    (autograd : Autograd F) where
  explain-some :
      (explainer : Explainer F) (x : Array F) (h width : ℕ) (rows : List (List F)) (row : List F)
      (confidence : F) (attributions : List (String × F))
      → out_of_range explainer h ≡ false
      → predict_proba np softmax explainer.model x ≡ some (rows2 width rows)
      → get_elem? rows (h - 1) ≡ some row
      → get_elem? row (np.np_argmax row) ≡ some confidence
      → attribute_features np softmax autograd explainer x h (some (np.np_argmax row))
        ≡ some attributions
      → explain np softmax autograd explainer x h
        ≡ some (explanation_of h (np.np_argmax row) confidence attributions)
  unfolding explain
  explain-some explainer x h width rows row confidence attributions range probs found top scores =
      rw (range, probs, found, top, scores) refl

  -- What an explanation of a step says: its stage is that of the confidence, which no probability
  -- exceeds; the features are ranked by their attributions; and the techniques are those of the stage.
  abbrev pub IsExplanation : List F → List (String × F) → ForecastExplanation F → Type ℓ
  IsExplanation row attributions e =
      (get_elem? row e.predicted_stage ≡ some e.confidence)
      × All (λ p. f.le p e.confidence ≡ true) row
      × (e.feature_attributions ≡ attributions)
      × IsRanking attributions e.top_features
      × (e.mitre_techniques ≡ map_stage_to_techniques (pos e.predicted_stage))

  explanation_of-IsExplanation :
      (ordered : IsOrdered F) (h stage : ℕ) (row : List F) (confidence : F)
      (attributions : List (String × F))
      → get_elem? row stage ≡ some confidence
      → All (λ p. f.le p confidence ≡ true) row
      → All (λ a. IsNumber a.1) attributions
      → IsExplanation row attributions (explanation_of h stage confidence attributions)
  unfolding explanation_of
  explanation_of-IsExplanation ordered h stage row confidence attributions found greatest nums =
      (found, greatest, refl, (sort_desc-IsRanking ordered attributions nums).0, refl)

  -- For a step within the horizon of the model, where the model gives one sequence of rows of
  -- probabilities, the row of the step is not empty, and the attributions of its most probable stage
  -- are computed, all of them numbers: `explain` returns an explanation. Its stage has the confidence
  -- as its probability, and no probability of the step is greater; its top features are the
  -- attributions in descending order; and its techniques are those of the stage. This is if NumPy's
  -- `argmax` gives the index of a greatest entry, and the order of floats is that of IEEE 754.
  pub explain-IsExplanation :
      (argmax_law : IsArgmax np.np_argmax) (ordered : IsOrdered F) (explainer : Explainer F)
      (x : Array F) (h width : ℕ) (rows : List (List F)) (p : F) (ps : List F)
      (attributions : List (String × F))
      → 0 < h
      → h ≤ explainer.model.forecast_horizon
      → predict_proba np softmax explainer.model x ≡ some (rows2 width rows)
      → get_elem? rows (h - 1) ≡ some (p ∷ ps)
      → All IsNumber (p ∷ ps)
      → attribute_features np softmax autograd explainer x h (some (np.np_argmax (p ∷ ps)))
        ≡ some attributions
      → All (λ a. IsNumber a.1) attributions
      → (e : ForecastExplanation F) × (explain np softmax autograd explainer x h ≡ some e)
        × IsExplanation (p ∷ ps) attributions e
  explain-IsExplanation law ordered explainer x h width rows p ps attributions low high probs found
        numbers scores score_nums =
      let (m, top, greatest) = law.argmax-found p ps numbers in
      (
        explanation_of h (np.np_argmax (p ∷ ps)) m attributions,
        explain-some explainer x h width rows (p ∷ ps) m attributions
            (in_range explainer h low high) probs found top scores,
        explanation_of-IsExplanation ordered h (np.np_argmax (p ∷ ps)) (p ∷ ps) m attributions top
            greatest score_nums,
      )
