-- ===== src/Benchmark/Selection.antt =====
-- `_apply_selection_rule` of forecasting/benchmark/runner.py.
use turbo_sh.Common.{
  ◌≡◌, refl, sym, ap, ◌∙◌, String, List, [], ◌∷◌, ◌++◌, true, false, Option, none, some, All, Float,
  IsNumber, IsOrdered, Option-cases, ◌⊎◌, inl, inr, arith,
}
use mathlib.Core.Path.{ap₂, subst⁻¹}
use turbo_sh.Evaluation.{EvaluationMetrics, Rounding}
use turbo_sh.Benchmark.Best.{best_from-IsTop}
use turbo_sh.Benchmark.{
  SelectionRule, Reason, ModelBenchmarkResult, Results, Verdict, disqualified, qualified,
  metrics_at, gates, composite, verdict_of, recorded, candidate, judge, judge_all, best_from,
  best_of, apply_selection_rule,
}

All-mapped {ℓ κ μ} :
    {A : Type ℓ} (P : A → Type κ) (Q : A → Type μ) (xs : List A)
    → ((x : A) → P x → Q x)
    → All P xs
    → All Q xs
All-mapped P Q [] h all = tt
All-mapped P Q (x ∷ xs) h (p, all) = (h x p, All-mapped P Q xs h all)

none≢some {ℓ} : {A : Type ℓ} {a : A} → none ≡ some a → ⊥
none≢some h = ground arith

nil≢cons {ℓ} : {A : Type ℓ} {a : A} {xs : List A} → a ∷ xs ≡ [] → ⊥
nil≢cons h = ground arith

true≢false : true ≡ false → ⊥
true≢false h = ground arith

module _ {ℓ} {F : Type ℓ} ⦃f : Float F⦄ where
  -- A model has been disqualified, or its score is a number that is at most `score`.
  abbrev pub IsDisqualified : Option (Verdict F) → Type 0
  IsDisqualified (some (disqualified reasons)) = Unit
  IsDisqualified _ = true ≡ false

  abbrev pub IsAtMost : F → Option (Verdict F) → Type 0
  IsAtMost score (some (disqualified reasons)) = Unit
  IsAtMost score (some (qualified s)) = f.le s score ≡ true
  IsAtMost score none = true ≡ false

  -- A model has metrics for the next step, and a score that is a number if it qualifies.
  abbrev pub IsJudged : Option (Verdict F) → Type 0
  IsJudged (some (disqualified reasons)) = Unit
  IsJudged (some (qualified s)) = IsNumber s
  IsJudged none = true ≡ false

  -- A candidate is one of the results, which passes the gates and has that score.
  abbrev pub IsCandidate : SelectionRule F → Results F → String × F → Type ℓ
  IsCandidate rule results c =
      (before after : Results F) × (result : ModelBenchmarkResult F) × (m1 : EvaluationMetrics F)
      × (results ≡ before ++ (c.0, result) ∷ after)
      × (metrics_at 1 result.multistep_metrics ≡ some m1)
      × ((gates rule m1 result ≡ []) × (composite rule m1 result ≡ c.1))

  -- What a selection is right about.
  pub data IsSelection (rule : SelectionRule F) (results : Results F) : Option String → Type ℓ where
    none_qualifies :
        All (λ e. IsDisqualified (judge rule e.1)) results → IsSelection rule results none
    greatest :
        (name : String) (score : F)
        → IsCandidate rule results (name, score)
        → All (λ e. IsAtMost score (judge rule e.1)) results
        → IsSelection rule results (some name)

  verdict-cases :
      (v : Option (Verdict F))
      → IsJudged v
      → ((reasons : List (Reason F)) × (v ≡ some (disqualified reasons)))
        ⊎ ((score : F) × (v ≡ some (qualified score)) × IsNumber score)
  verdict-cases none h = absurd (true≢false h)
  verdict-cases (some (disqualified reasons)) h = inl (reasons, refl)
  verdict-cases (some (qualified score)) h = inr (score, refl, h)

  -- What the loop leaves in `candidates`.
  abbrev IsJudgement : SelectionRule F → Results F → List (String × F) → Type ℓ
  IsJudgement rule results candidates =
      All (IsCandidate rule results) candidates
      × All (λ c. IsNumber c.1) candidates
      × ((score : F)
          → All (λ c. f.le c.1 score ≡ true) candidates
          → All (λ e. IsAtMost score (judge rule e.1)) results)
      × (candidates ≡ [] → All (λ e. IsDisqualified (judge rule e.1)) results)

  verdict_of-qualified :
      (reasons : List (Reason F)) (score s : F)
      → some (verdict_of reasons score) ≡ some (qualified s)
      → (reasons ≡ []) × (score ≡ s)
  verdict_of-qualified [] score s e = (refl, ground arith)
  verdict_of-qualified (reason ∷ reasons) score s e = ground arith

  judge-metrics :
      (rule : SelectionRule F) (result : ModelBenchmarkResult F) (o : Option (EvaluationMetrics F))
      → metrics_at 1 result.multistep_metrics ≡ o
      → judge rule result ≡ elim o [
        | none ↦ none
        | some m1 ↦ some (verdict_of (gates rule m1 result) (composite rule m1 result))
      ]
  unfolding judge
  judge-metrics rule result o e =
      ap
        (λ o'. elim o' [
          | none ↦ none
          | some m1 ↦ some (verdict_of (gates rule m1 result) (composite rule m1 result))
        ])
        e

  judge-qualified :
      (rule : SelectionRule F) (result : ModelBenchmarkResult F) (score : F)
      → judge rule result ≡ some (qualified score)
      → (m1 : EvaluationMetrics F) × (metrics_at 1 result.multistep_metrics ≡ some m1)
        × ((gates rule m1 result ≡ []) × (composite rule m1 result ≡ score))
  judge-qualified rule result score e =
      elim (Option-cases (metrics_at 1 result.multistep_metrics)) [
        | inl missing ↦ absurd (none≢some (sym (judge-metrics rule result none missing) ∙ e))
        | inr (m1, found) ↦ (
          m1,
          found,
          verdict_of-qualified (gates rule m1 result) (composite rule m1 result) score
              (sym (judge-metrics rule result (some m1) found) ∙ e),
        )
      ]

  judge_all-nil :
      (num : Rounding F) (rule : SelectionRule F) → judge_all num rule [] ≡ some ([], [])
  unfolding judge_all
  judge_all-nil num rule = refl

  judge_all-cons :
      (num : Rounding F) (rule : SelectionRule F) (name : String) (result : ModelBenchmarkResult F)
      (results judged : Results F) (candidates : List (String × F)) (verdict : Verdict F)
      → judge rule result ≡ some verdict
      → judge_all num rule results ≡ some (judged, candidates)
      → judge_all num rule ((name, result) ∷ results)
        ≡ some ((name, recorded num verdict result) ∷ judged, candidate name verdict candidates)
  unfolding judge_all
  judge_all-cons num rule name result results judged candidates verdict e eq =
      ap₂
        (λ v rest. elim v [
          | none ↦ none
          | some verdict' ↦ elim rest [
            | none ↦ none
            | some (judged', candidates') ↦ some (
              (name, recorded num verdict' result) ∷ judged',
              candidate name verdict' candidates',
            )
          ]
        ])
        e eq

  -- A candidate among the results stays one behind another result.
  IsCandidate-cons :
      (rule : SelectionRule F) (results : Results F) (e : String × ModelBenchmarkResult F)
      (c : String × F)
      → IsCandidate rule results c
      → IsCandidate rule (e ∷ results) c
  IsCandidate-cons rule results e c (before, after, result, m1, split, m1_eq, scored) =
      (e ∷ before, after, result, m1, ap (◌∷◌ e) split, m1_eq, scored)

  judge_all-IsJudgement :
      (num : Rounding F) (rule : SelectionRule F) (results : Results F)
      → All (λ e. IsJudged (judge rule e.1)) results
      → (judged : Results F) × (candidates : List (String × F)) × (judge_all num rule results
          ≡ some (judged, candidates))
        × IsJudgement rule results candidates
  judge_all-IsJudgement num rule [] all =
      ([], [], judge_all-nil num rule, (tt, tt, λ s h. tt, λ e. tt))
  judge_all-IsJudgement num rule ((name, result) ∷ results) (is_judged, all) =
      let (judged, candidates, eq, (found, nums, bound, empty)) =
        judge_all-IsJudgement num rule results all in
      elim (verdict-cases (judge rule result) is_judged) [
        | inl (reasons, e) ↦ (
          (name, recorded num (disqualified reasons) result) ∷ judged,
          candidates,
          judge_all-cons num rule name result results judged candidates (disqualified reasons) e eq,
          (
            All-mapped (IsCandidate rule results) _ candidates
                (IsCandidate-cons rule results (name, result)) found,
            nums,
            (λ score le. (subst⁻¹ (IsAtMost score) e tt, bound score le)),
            λ none_left. (subst⁻¹ IsDisqualified e tt, empty none_left),
          ),
        )
        | inr (score, e, score_num) ↦ (
          (name, recorded num (qualified score) result) ∷ judged,
          (name, score) ∷ candidates,
          judge_all-cons num rule name result results judged candidates (qualified score) e eq,
          (
            (
              (let (m1, m1_eq, scored) = judge-qualified rule result score e in
                  ([], results, result, m1, refl, m1_eq, scored)),
              All-mapped (IsCandidate rule results) _ candidates
                  (IsCandidate-cons rule results (name, result)) found,
            ),
            (score_num, nums),
            (λ s (le, les). (subst⁻¹ (IsAtMost s) e le, bound s les)),
            λ none_left. absurd (nil≢cons none_left),
          ),
        )
      ]

  best_of-IsSelection :
      (ordered : IsOrdered F) (rule : SelectionRule F) (results : Results F)
      (candidates : List (String × F))
      → IsJudgement rule results candidates
      → IsSelection rule results (best_of candidates)
  best_of-IsSelection ordered rule results [] (found, nums, bound, empty) =
      none_qualifies (empty refl)
  best_of-IsSelection ordered rule results (c ∷ cs) ((here, found), (num, nums), bound, empty) =
      let best = best_from c cs in
      let (top, c_le, rest) =
        best_from-IsTop (IsCandidate rule results) ordered c cs here found num nums in
      greatest best.0 best.1 top (bound best.1 (c_le, rest))

  -- When each result has metrics for the next step and each score of a qualifying one is a number,
  -- the selection rule gives an answer: no name only if every model is disqualified, and otherwise
  -- the name of a result that passes all three gates, such that no qualifying model has a greater
  -- composite score.
  pub apply_selection_rule-IsSelection :
      (ordered : IsOrdered F) (num : Rounding F) (rule : SelectionRule F) (results : Results F)
      → All (λ e. IsJudged (judge rule e.1)) results
      → (judged : Results F) × (selected : Option String) × (apply_selection_rule num rule results
          ≡ some (judged, selected))
        × IsSelection rule results selected
  unfolding apply_selection_rule
  apply_selection_rule-IsSelection ordered num rule results all =
      let (judged, candidates, eq, judgement) = judge_all-IsJudgement num rule results all in
      (
        judged,
        best_of candidates,
        ap
            (λ o. elim o [
              | none ↦ none
              | some (judged', candidates') ↦ some (judged', best_of candidates')
            ])
            eq,
        best_of-IsSelection ordered rule results candidates judgement,
      )
