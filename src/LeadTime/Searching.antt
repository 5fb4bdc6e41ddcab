-- ===== src/LeadTime/Searching.antt =====
-- The search back from an onset, the loop of `evaluate_detections` in
-- forecasting/evaluation/lead_time.py.
use turbo_sh.Common.{
  ℕ, zero, suc, ◌+◌, ◌-◌, ◌≤◌, ◌<◌, max, ◌≡◌, refl, ap, sym, ◌∙◌, ◌⊎◌, inl, inr, Bool, true, false,
  Option, some, pos, negsuc, ◌&&◌, leb, ltb, arith, Bool-cases, leb→le, lt_of_not-leb,
}
use mathlib.Core.Path.{subst}
use native.Mathlib.Decide.{dec_lt}
use turbo_sh.LeadTime.{Search, search_begin, search_step, search_back}

module _ (attack : ℕ → Bool) (min_consec onset : ℕ) where
  -- From `idx` on there are `m` predictions of an attack in a row, all of them before the onset.
  abbrev pub Streak : ℕ → ℕ → Type 0
  Streak m idx = (idx + m ≤ onset) × ((j : ℕ) → idx ≤ j → j < idx + m → attack j ≡ true)

  -- The streak that counts: at least one prediction.
  abbrev pub IsWarning : ℕ → Type 0
  IsWarning idx = Streak (max 1 min_consec) idx

  -- What the search knows after it has dealt with the places from `next` to the onset.
  pub record Knows (next : ℕ) (s : Search) : Type 0 where
    pub within : next + s.consecutive ≤ onset
    pub streak : (j : ℕ) → next ≤ j → j < next + s.consecutive → attack j ≡ true
    pub stopped : (next + s.consecutive ≡ onset) ⊎ (attack (next + s.consecutive) ≡ false)
    pub found :
        ((s.best_lead ≡ 0) × (s.first_correct_idx ≡ negsuc 0))
        ⊎ ((next + s.best_lead ≤ onset)
            × (0 < s.best_lead)
            × (s.first_correct_idx ≡ pos (onset - s.best_lead))
            × IsWarning (onset - s.best_lead))
    pub earliest : (idx : ℕ) → next ≤ idx → IsWarning idx → onset ≤ idx + s.best_lead

  pub Knows-begin : Knows onset search_begin
  Knows-begin = record {
    within = omega arith;
    streak = λ j lo hi. absurd (omega arith);
    stopped = inl (omega arith);
    found = inl (refl, refl);
    earliest = λ idx lo w. omega (arith, w.0);
  }

  -- A warning found stays one as the search goes on.
  abbrev Found : ℕ → Search → Type 0
  Found next s =
      ((s.best_lead ≡ 0) × (s.first_correct_idx ≡ negsuc 0))
      ⊎ ((next + s.best_lead ≤ onset)
          × (0 < s.best_lead)
          × (s.first_correct_idx ≡ pos (onset - s.best_lead))
          × IsWarning (onset - s.best_lead))

  Found-back : (idx : ℕ) (s : Search) → Found (suc idx) s → Found idx s
  Found-back idx s (inl nothing) = inl nothing
  Found-back idx s (inr (lo, positive, first, warning)) =
      inr (omega arith, positive, first, warning)

  best_lead-lt :
      (idx : ℕ) (s : Search) → idx < onset → Found (suc idx) s → s.best_lead < onset - idx
  best_lead-lt idx s below (inl (nothing, _)) = omega arith
  best_lead-lt idx s below (inr (lo, _, _, _)) = omega arith

  Knows-miss :
      (idx : ℕ) (s : Search)
      → idx < onset
      → attack idx ≡ false
      → Knows (suc idx) s
      → Knows idx (search_step min_consec onset idx false s)
  unfolding search_step
  Knows-miss idx s below miss k = record {
    within = omega arith;
    streak = λ j lo hi. absurd (omega arith);
    stopped = inr (ap attack (omega arith) ∙ miss);
    found = Found-back idx s k.found;
    earliest = λ i lo w. elim (dec_lt idx i) [
      | yes later ↦ k.earliest i later w
      | no now ↦ let clash : true ≡ false = sym (w.1 idx (omega arith) (omega arith)) ∙ miss in cc
    ];
  }

  grown_streak :
      (idx : ℕ) (s : Search)
      → attack idx ≡ true
      → Knows (suc idx) s
      → (j : ℕ) → idx ≤ j
      → j < idx + (s.consecutive + 1)
      → attack j ≡ true
  grown_streak idx s hit k j lo hi = elim (dec_lt idx j) [
    | yes later ↦ k.streak j later (omega arith)
    | no now ↦ ap attack (omega arith) ∙ hit
  ]

  grown_stop :
      (idx : ℕ) (s : Search)
      → Knows (suc idx) s
      → (idx + (s.consecutive + 1) ≡ onset) ⊎ (attack (idx + (s.consecutive + 1)) ≡ false)
  grown_stop idx s k =
      let same : suc idx + s.consecutive ≡ idx + (s.consecutive + 1) = omega arith in
      subst (λ n. (n ≡ onset) ⊎ (attack n ≡ false)) same k.stopped

  -- A streak too short for a warning: there is none at `idx`.
  too_short :
      (idx : ℕ) (s : Search)
      → Knows (suc idx) s
      → s.consecutive + 1 < min_consec
      → IsWarning idx
      → ⊥
  too_short idx s k short w = elim (grown_stop idx s k) [
    | inl end ↦ omega (arith, w.0)
    | inr miss ↦ let clash : true ≡ false = sym (w.1 _ (omega arith) (omega arith)) ∙ miss in cc
  ]

  Knows-hit :
      (idx : ℕ) (s : Search)
      → idx < onset
      → attack idx ≡ true
      → Knows (suc idx) s
      → Knows idx (search_step min_consec onset idx true s)
  unfolding search_step
  Knows-hit idx s below hit k =
      let streak = s.consecutive + 1 in
      let farther = best_lead-lt idx s below k.found in
      let place : idx ≡ onset - (onset - idx) = omega arith in
      elim (Bool-cases (leb min_consec streak)) [
        | inl long ↦
            let test : (leb min_consec streak && ltb s.best_lead (onset - idx)) ≡ true =
              ground arith in
            let warning : IsWarning idx = (
              omega (arith, k.within, leb→le _ _ long),
              λ j lo hi. grown_streak idx s hit k j lo (omega (arith, leb→le _ _ long)),
            ) in
            rw test (record {
              within = omega (arith, k.within);
              streak = grown_streak idx s hit k;
              stopped = grown_stop idx s k;
              found = inr (omega arith, omega arith, ap pos place, subst IsWarning place warning);
              earliest = λ i lo w. omega arith;
            })
        | inr short ↦
            let test : (leb min_consec streak && ltb s.best_lead (onset - idx)) ≡ false =
              ground arith in
            rw test (record {
              within = omega (arith, k.within);
              streak = grown_streak idx s hit k;
              stopped = grown_stop idx s k;
              found = Found-back idx s k.found;
              earliest = λ i lo w. elim (dec_lt idx i) [
                | yes later ↦ k.earliest i later w
                | no now ↦
                    let e : i ≡ idx = omega arith in
                    absurd (too_short idx s k (lt_of_not-leb _ _ short) (subst IsWarning e w))
              ];
            })
      ]

  Knows-step :
      (idx : ℕ) (b : Bool) (s : Search)
      → idx < onset
      → attack idx ≡ b
      → Knows (suc idx) s
      → Knows idx (search_step min_consec onset idx b s)
  Knows-step idx true s below e k = Knows-hit idx s below e k
  Knows-step idx false s below e k = Knows-miss idx s below e k

  module _ (attack_at : ℕ → Option Bool) (start : ℕ)
      (read : (idx : ℕ) → start ≤ idx → idx < onset → attack_at idx ≡ some (attack idx)) where
    pub search_back-Knows :
        (n next : ℕ) (s : Search)
        → start + n ≡ next
        → next ≤ onset
        → Knows next s
        → (s' : Search) × (search_back attack_at min_consec onset n next s ≡ some s')
          × Knows start s'
    unfolding search_back
    search_back-Knows zero next s e h k =
        let e' : next ≡ start = omega arith in (s, refl, subst (λ m. Knows m s) e' k)
    search_back-Knows (suc n) next s e h k =
        let idx = next - 1 in
        let again : next ≡ suc idx = omega arith in
        let k' =
          Knows-step idx (attack idx) s (omega arith) refl (subst (λ m. Knows m s) again k) in
        let (s', ran, knows) = search_back-Knows n idx _ (omega arith) (omega arith) k' in
        (s', rw (read idx (omega arith) (omega arith), search_back) ran, knows)

module _ (attack : ℕ → Bool) (min_consec onset start : ℕ) (s : Search) where
  pub Found-le : onset ≤ start + 20 → Found attack min_consec onset start s → s.best_lead ≤ 20
  Found-le h (inl (nothing, _)) = omega arith
  Found-le h (inr (lo, _, _, _)) = omega arith

  pub Found-outcome :
      Found attack min_consec onset start s
      → ((ltb 0 s.best_lead ≡ false) × (s.best_lead ≡ 0) × (s.first_correct_idx ≡ negsuc 0))
        ⊎ ((ltb 0 s.best_lead ≡ true)
            × (s.best_lead ≤ onset)
            × (s.first_correct_idx ≡ pos (onset - s.best_lead))
            × IsWarning attack min_consec onset (onset - s.best_lead))
  Found-outcome (inl (nothing, first)) = inl (ground arith, nothing, first)
  Found-outcome (inr (lo, positive, first, warning)) =
      inr (ground arith, omega arith, first, warning)
