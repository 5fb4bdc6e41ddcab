-- ===== src/LeadTime/FalseAlarms/Counts.antt =====
-- The counts of `compute_false_alarms` in forecasting/evaluation/lead_time.py.
use turbo_sh.Common.{
  ℕ, zero, suc, ◌+◌, ◌≤◌, ◌≡◌, refl, sym, ◌∙◌, List, [], ◌∷◌, Bool, not, ◌&&◌, none, some, ◌==◌, ℤ,
  pos, if◌then◌else◌, ltb_ℤ, leb_ℤ, ◌≤ℤ◌, All, length, filter, arith, Float, ==_iff, Bool-cases,
  Option-cases, inl, inr,
}
use turbo_sh.LeadTime.{StageArray, t1, LeadTimeConfig, DetectionResult}
use turbo_sh.LeadTime.FalseAlarms.{
  count_true, alarm_mask, alarms_of, by_stage, FalseAlarmMetrics, compute_false_alarms, is_valid,
}

-- There are no more alarms than stages below the threshold.
alarm_mask-le :
    (threshold : ℤ) (ds : List DetectionResult) (i : ℕ) (truths preds : List ℤ) (mask : List Bool)
    → alarm_mask threshold ds i truths preds ≡ some mask
    → count_true mask ≤ length (filter (λ t. ltb_ℤ t threshold) truths)
unfolding alarm_mask
alarm_mask-le threshold ds i truths [] mask e = ground arith
alarm_mask-le threshold ds i [] (p ∷ preds) mask e = cc
alarm_mask-le threshold ds i (t ∷ truths) (p ∷ preds) mask e =
    elim (Option-cases (alarm_mask threshold ds (suc i) truths preds)) [
      | inl failed ↦ let e' : none ≡ some mask = rw (failed, alarm_mask) at e in cc
      | inr (mask', ran) ↦
          let flag = ltb_ℤ t threshold && (leb_ℤ threshold p && not (is_valid ds i)) in
          let e' : some (flag ∷ mask') ≡ some mask = rw (ran, alarm_mask) at e in
          ground (arith, alarm_mask-le threshold ds (suc i) truths preds mask' ran)
    ]

abbrev pub total : List (ℕ × ℕ) → ℕ
total [] = 0
total ((_, n) ∷ rest) = n + total rest

-- One alarm, for the stages from `stage` on.
abbrev hit : ℤ → ℕ → ℕ → Bool → ℤ → ℕ
hit threshold n stage b p =
    if b && (leb_ℤ threshold p && (leb_ℤ (pos stage) p && ltb_ℤ p (pos (stage + n)))) then 1 else 0

total-by_stage-cons :
    (threshold : ℤ) (n stage : ℕ) (b : Bool) (mask : List Bool) (p : ℤ) (preds : List ℤ)
    → total (by_stage threshold n stage (b ∷ mask) (p ∷ preds))
      ≡ hit threshold n stage b p + total (by_stage threshold n stage mask preds)
unfolding by_stage alarms_of
total-by_stage-cons threshold zero stage b mask p preds = ground arith
total-by_stage-cons threshold (suc n) stage b mask p preds =
    ground (arith, total-by_stage-cons threshold n (suc stage) b mask p preds)

-- A class index of the five stages.
abbrev pub IsStage : ℤ → Type 0
IsStage p = (pos 0 ≤ℤ p) × (p ≤ℤ pos 4)

total-by_stage-nil : (threshold : ℤ) (n stage : ℕ) → total (by_stage threshold n stage [] []) ≡ 0
unfolding by_stage alarms_of
total-by_stage-nil threshold zero stage = refl
total-by_stage-nil threshold (suc n) stage =
    ground (arith, total-by_stage-nil threshold n (suc stage))

-- The mask exists, and each of its alarms is counted under its own stage.
alarm_mask-by_stage :
    (threshold : ℤ) (ds : List DetectionResult) (i : ℕ) (truths preds : List ℤ)
    → length preds ≤ length truths
    → All IsStage preds
    → (mask : List Bool) × (alarm_mask threshold ds i truths preds ≡ some mask)
      × (total (by_stage threshold 5 0 mask preds) ≡ count_true mask)
unfolding alarm_mask
alarm_mask-by_stage threshold ds i truths [] h v = ([], refl, total-by_stage-nil threshold 5 0)
alarm_mask-by_stage threshold ds i [] (p ∷ preds) h v = absurd (omega arith)
alarm_mask-by_stage threshold ds i (t ∷ truths) (p ∷ preds) h v =
    let (mask, ran, same) =
      alarm_mask-by_stage threshold ds (suc i) truths preds (omega arith) v.1 in
    let flag = ltb_ℤ t threshold && (leb_ℤ threshold p && not (is_valid ds i)) in
    let one : hit threshold 5 0 flag p ≡ (if flag then 1 else 0) = ground arith in
    (
      flag ∷ mask,
      rw (ran, alarm_mask),
      total-by_stage-cons threshold 5 0 flag mask p preds ∙ ground arith,
    )

module _ {ℓ} {F : Type ℓ} ⦃f : Float F⦄ where
  -- Where no prediction lacks a true stage and all predictions are class indices 0 to 4,
  -- `compute_false_alarms` returns; its false alarms are at most as many as the stages below the
  -- threshold, whose number it gives, and its counts by stage add up to the false alarms.
  pub compute_false_alarms-counts :
      (config : LeadTimeConfig F) (true_stages pred_stages : StageArray) (ds : List DetectionResult)
      → length (t1 pred_stages) ≤ length (t1 true_stages)
      → All IsStage (t1 pred_stages)
      → (m : FalseAlarmMetrics F) × (compute_false_alarms config true_stages pred_stages ds
          ≡ some m)
        × (m.false_alarms ≤ m.total_non_attack_windows)
        × (m.total_non_attack_windows
            ≡ length (filter (λ t. ltb_ℤ t config.surge_threshold) (t1 true_stages)))
        × (total m.false_alarm_by_stage ≡ m.false_alarms)
  unfolding compute_false_alarms
  compute_false_alarms-counts config true_stages pred_stages ds h v =
      let threshold = config.surge_threshold in
      let truths = t1 true_stages in
      let preds = t1 pred_stages in
      let count = length (filter (λ t. ltb_ℤ t threshold) truths) in
      let (mask, ran, same) = alarm_mask-by_stage threshold ds 0 truths preds h v in
      elim (Bool-cases (count == 0)) [
        | inl nothing ↦ (
          record {
            total_non_attack_windows = 0;
            false_alarms = 0;
            false_alarm_rate = f.of_nat 0;
            false_alarm_by_stage = [];
          },
          rw (nothing, compute_false_alarms),
          omega arith,
          sym ((==_iff _ _).0 nothing),
          refl,
        )
        | inr some_calm ↦ (
          record {
            total_non_attack_windows = count;
            false_alarms = count_true mask;
            false_alarm_rate = f.div (f.of_nat (count_true mask)) (f.of_nat count);
            false_alarm_by_stage = by_stage threshold 5 0 mask preds;
          },
          rw (some_calm, ran, compute_false_alarms),
          alarm_mask-le threshold ds 0 truths preds mask ran,
          refl,
          same,
        )
      ]
