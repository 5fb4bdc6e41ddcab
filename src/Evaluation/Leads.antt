-- ===== src/Evaluation/Leads.antt =====
-- `lead_time`, a round of `analyze_lead_times` in forecasting/evaluation/evaluator.py.
use turbo_sh.Common.{
  ℕ, zero, suc, ◌+◌, ◌-◌, ◌≤◌, ◌<◌, ◌≡◌, refl, ap, sym, ◌∙◌, ◌⊎◌, inl, inr, List, ◌∷◌, Bool, true,
  false, some, ℤ, if◌then◌else◌, min, max, arith, Bool-cases,
}
use mathlib.Core.Path.{subst}
use native.Mathlib.Decide.{dec_lt}
use turbo_sh.Evaluation.{Forecast, first_surge, predicts, look_back, lead_time}

-- What the loop over `n` steps from `k` makes of `m`.
record Looked (hit : ℕ → Bool) (n k m r : ℕ) : Type 0 where
  pub from_start : m ≤ r
  pub found : (r ≡ m) ⊎ ((k ≤ r) × (r < k + n) × (hit r ≡ true))
  pub most : (j : ℕ) → k ≤ j → j < k + n → hit j ≡ true → j ≤ r

Looked-hit :
    (hit : ℕ → Bool) (n k m r : ℕ)
    → m ≤ k
    → hit k ≡ true
    → Looked hit n (suc k) k r
    → Looked hit (suc n) k m r
Looked-hit hit n k m r le now l = record {
  from_start = omega (arith, l.from_start);
  found = elim l.found [
    | inl e ↦ inr (omega arith, omega arith, ap hit e ∙ now)
    | inr (lo, hi, h) ↦ inr (omega arith, omega arith, h)
  ];
  most = λ j lo hi h. elim (dec_lt k j) [
    | yes later ↦ l.most j later (omega arith) h
    | no here ↦ omega (arith, l.from_start)
  ];
}

Looked-miss :
    (hit : ℕ → Bool) (n k m r : ℕ)
    → hit k ≡ false
    → Looked hit n (suc k) m r
    → Looked hit (suc n) k m r
Looked-miss hit n k m r miss l = record {
  from_start = l.from_start;
  found = elim l.found [ inl e ↦ inl e | inr (lo, hi, h) ↦ inr (omega arith, omega arith, h) ];
  most = λ j lo hi h. elim (dec_lt k j) [
    | yes later ↦ l.most j later (omega arith) h
    | no here ↦
        let same : k ≡ j = omega arith in
        let clash : true ≡ false = sym h ∙ sym (ap hit same) ∙ miss in cc
  ];
}

look_back-Looked : (hit : ℕ → Bool) (n k m : ℕ) → m ≤ k → Looked hit n k m (look_back hit n k m)
unfolding look_back
look_back-Looked hit zero k m le = record {
  from_start = omega arith;
  found = inl refl;
  most = λ j lo hi h. absurd (omega arith);
}
look_back-Looked hit (suc n) k m le = elim (Bool-cases (hit k)) [
  | inl now ↦
      let top : max m k ≡ k = omega arith in
      let same : look_back hit n (suc k) k ≡ look_back hit (suc n) k m =
        ap (look_back hit n (suc k)) (sym top)
        ∙ sym (λ t. look_back hit n (suc k) (if now t then max m k else m)) in
      subst (Looked hit (suc n) k m) same
        (Looked-hit hit n k m _ le now (look_back-Looked hit n (suc k) k (omega arith)))
  | inr not_now ↦
      let same : look_back hit n (suc k) m ≡ look_back hit (suc n) k m =
        sym (λ t. look_back hit n (suc k) (if not_now t then max m k else m)) in
      subst (Looked hit (suc n) k m) same
        (Looked-miss hit n k m _ not_now (look_back-Looked hit n (suc k) m (omega arith)))
]

module _ (forecast : Forecast) (threshold : ℤ) (horizon : ℕ) where
  -- In a sequence of two states or more with its first surge at `first` the lead time is at most
  -- the horizon and at most `first`. If it is not 0 the forecast made that many steps before
  -- predicted the surge, and no forecast made earlier, within the horizon and the sequence, did.
  pub lead_time-first_surge :
      (s t : ℤ) (seq : List ℤ) (first : ℕ)
      → first_surge threshold 0 (s ∷ t ∷ seq) ≡ some first
      → let hit = predicts forecast threshold (s ∷ t ∷ seq) first in
        (lead : ℕ) × (lead_time forecast threshold horizon (s ∷ t ∷ seq) ≡ some lead)
        × (lead ≤ horizon)
        × (lead ≤ first)
        × ((lead ≡ 0) ⊎ (hit lead ≡ true))
        × ((j : ℕ) → 1 ≤ j → j ≤ horizon → j ≤ first → hit j ≡ true → j ≤ lead)
  unfolding lead_time
  lead_time-first_surge s t seq first e =
      let hit = predicts forecast threshold (s ∷ t ∷ seq) first in
      let n = min (horizon + 1) (first + 1) - 1 in
      let l = look_back-Looked hit n 1 0 (omega arith) in
      let bound : (look_back hit n 1 0 ≤ horizon) × (look_back hit n 1 0 ≤ first) = elim l.found [
        | inl none_found ↦ (omega arith, omega arith)
        | inr (lo, hi, h) ↦ (omega arith, omega arith)
      ] in
      (
        look_back hit n 1 0,
        rw (e, lead_time) refl,
        bound.0,
        bound.1,
        elim l.found [ inl none_found ↦ inl none_found | inr (lo, hi, h) ↦ inr h ],
        λ j lo hi within h. l.most j lo (omega arith) h,
      )
