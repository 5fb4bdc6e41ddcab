-- ===== src/LeadTime/Coverage.antt =====
-- The episodes of `detect_episodes` in forecasting/evaluation/lead_time.py, together.
use turbo_sh.Common.{
  ℕ, suc, ◌+◌, ◌-◌, ◌≤◌, ◌<◌, ◌≡◌, ◌≢◌, ap, sym, ◌∙◌, ◌⊎◌, inl, inr, List, [], ◌∷◌, true, false,
  none, some, ℤ, if◌then◌else◌, ◌≤ℤ◌, leb_ℤ, ltb_ℤ, get_elem?, arith, Bool-cases,
}
use mathlib.Core.Path.{subst}
use native.Mathlib.Decide.{dec_lt}
use turbo_sh.LeadTime.{
  StageArray, t1, LeadTimeConfig, AttackEpisode, Scan, outside, inside, detect, detect_episodes,
}
use turbo_sh.LeadTime.Rounds.{
  detect-begin, detect-pass, detect-go_on, detect-close, IsRest, IsRest-suc, here,
}

-- Place `k` lies in one of the episodes.
abbrev pub Covered : ℕ → List AttackEpisode → Type 0
Covered k [] = ⊥
Covered k (e ∷ es) = ((e.onset_idx ≤ k) × (k ≤ e.resolution_idx)) ⊎ Covered k es

-- Each episode begins at `lo` or later, and at least one place lies between two of them.
abbrev pub Separated : ℕ → List AttackEpisode → Type 0
Separated lo [] = Unit
Separated lo (e ∷ es) = (lo ≤ e.onset_idx) × Separated (e.resolution_idx + 2) es

module _ (stages : List ℤ) (threshold : ℤ) where
  -- The first place that the loops have not dealt with.
  abbrev run_begin : ℕ → Scan → ℕ
  run_begin i outside = i
  run_begin i (inside onset peak stage) = onset

  run_begin-go_on :
      (i onset peak : ℕ) (stage x : ℤ)
      → run_begin (suc i) (if ltb_ℤ stage x then inside onset i x else inside onset peak stage)
        ≡ onset
  run_begin-go_on i onset peak stage x = ground arith

  past_end : (i k : ℕ) (x : ℤ) → IsRest stages i [] → i ≤ k → get_elem? stages k ≡ some x → ⊥
  past_end i k x r lo at =
      let place : i + (k - i) ≡ k = omega arith in
      let nothing : none ≡ get_elem? stages k = r (k - i) ∙ ap (get_elem? stages) place in cc

  not_here :
      (i k : ℕ) (x y : ℤ)
      → get_elem? stages i ≡ some y
      → leb_ℤ threshold y ≡ false
      → get_elem? stages k ≡ some x
      → leb_ℤ threshold x ≡ true
      → k ≢ i
  not_here i k x y at_i below at_k attack e =
      let same : some x ≡ some y = sym at_k ∙ ap (get_elem? stages) e ∙ at_i in
      let equal : x ≡ y = cc in
      let clash : false ≡ true = sym below ∙ ap (leb_ℤ threshold) (sym equal) ∙ attack in cc

  module _ (k : ℕ) (x : ℤ) (at : get_elem? stages k ≡ some x)
      (attack : leb_ℤ threshold x ≡ true) where
    detect-Covered :
        (i : ℕ) (scan : Scan) (rest : List ℤ)
        → IsRest stages i rest
        → run_begin i scan ≤ k
        → Covered k (detect threshold i scan rest)
    unfolding detect
    detect-Covered i outside [] r lo = past_end i k x r lo at
    detect-Covered i outside (y ∷ rest) r lo =
        let r' = IsRest-suc stages i y rest r in
        elim (Bool-cases (leb_ℤ threshold y)) [
          | inl up ↦
              subst (Covered k) (sym (detect-begin threshold i y rest up))
                (detect-Covered (suc i) (inside i i y) rest r' lo)
          | inr down ↦
              let away = not_here i k x y (here stages i y rest r) down at attack in
              subst (Covered k) (sym (detect-pass threshold i y rest down))
                (detect-Covered (suc i) outside rest r' (omega arith))
        ]
    detect-Covered i (inside onset peak stage) [] r lo = elim (dec_lt k i) [
      | yes within ↦ inl (lo, omega arith)
      | no past ↦ absurd (past_end i k x r (omega arith) at)
    ]
    detect-Covered i (inside onset peak stage) (y ∷ rest) r lo =
        let r' = IsRest-suc stages i y rest r in
        elim (Bool-cases (leb_ℤ threshold y)) [
          | inl up ↦ subst (Covered k) (sym (detect-go_on threshold i onset peak stage y rest up)) (
              detect-Covered (suc i) _ rest r'
                (omega (arith, run_begin-go_on i onset peak stage y)))
          | inr down ↦
              let away = not_here i k x y (here stages i y rest r) down at attack in
              subst (Covered k) (sym (detect-close threshold i onset peak stage y rest down))
                (elim (dec_lt k i) [
                  | yes within ↦ inl (lo, omega arith)
                  | no past ↦ inr (detect-Covered (suc i) outside rest r' (omega arith))
                ])
        ]

  -- A run that the inner loop follows has begun before `i`.
  abbrev IsStarted : ℕ → Scan → Type 0
  IsStarted i outside = Unit
  IsStarted i (inside onset peak stage) = onset < i

  detect-Separated :
      (i lo : ℕ) (scan : Scan) (rest : List ℤ)
      → lo ≤ run_begin i scan
      → IsStarted i scan
      → Separated lo (detect threshold i scan rest)
  unfolding detect
  detect-Separated i lo outside [] h w = tt
  detect-Separated i lo outside (y ∷ rest) h w = elim (Bool-cases (leb_ℤ threshold y)) [
    | inl up ↦
        subst (Separated lo) (sym (detect-begin threshold i y rest up))
          (detect-Separated (suc i) lo (inside i i y) rest h (omega arith))
    | inr down ↦
        subst (Separated lo) (sym (detect-pass threshold i y rest down))
          (detect-Separated (suc i) lo outside rest (omega arith) tt)
  ]
  detect-Separated i lo (inside onset peak stage) [] h w = (h, tt)
  detect-Separated i lo (inside onset peak stage) (y ∷ rest) h w =
      elim (Bool-cases (leb_ℤ threshold y)) [
        | inl up ↦
            subst (Separated lo) (sym (detect-go_on threshold i onset peak stage y rest up)) (
              detect-Separated (suc i) lo _ rest
                (omega (arith, run_begin-go_on i onset peak stage y)) (ground arith))
        | inr down ↦
            subst (Separated lo) (sym (detect-close threshold i onset peak stage y rest down))
              (h, detect-Separated (suc i) (i - 1 + 2) outside rest (omega arith) tt)
      ]

module _ {ℓ} {F : Type ℓ} (config : LeadTimeConfig F) (true_stages : StageArray) where
  -- Each stage at or above the threshold lies in a reported episode, and the episodes are reported
  -- in order, with at least one place between two of them.
  pub detect_episodes-Covered :
      ((k : ℕ) (x : ℤ)
        → get_elem? (t1 true_stages) k ≡ some x
        → config.surge_threshold ≤ℤ x
        → Covered k (detect_episodes config true_stages))
      × Separated 0 (detect_episodes config true_stages)
  unfolding detect_episodes
  detect_episodes-Covered =
      let stages = t1 true_stages in
      let threshold = config.surge_threshold in
      (
        λ k x at attack.
            detect-Covered stages threshold k x at (ground arith) 0 outside stages
              (λ j. ap (get_elem? stages) (omega arith)) (omega arith),
        detect-Separated stages threshold 0 0 outside stages (omega arith) tt,
      )
