-- ===== src/Labeler.antt =====
-- The rules of forecasting/state_labeler.py: `label_state` and `label_sequence`.
pub mod Runs
pub mod Windows
pub mod Dataset
use turbo_sh.Common.{
  ℕ, zero, suc, ◌+◌, ◌-◌, List, [], ◌∷◌, map, Bool, if◌then◌else◌, leb, length, set, Float,
}
use turbo_sh.Config.{
  AttackStage, normal, recon, escalation, surge, sustained, is_surge,
  sustained_min_consecutive_steps,
}
use turbo_sh.NetworkState.{NetworkState}

-- The thresholds of config.py, 0.30, 0.50 and 0.70.
module _ {ℓ} {F J : Type ℓ} ⦃f : Float F⦄ where
  open f use {lt, ratio}

  unfoldable pub label_state : NetworkState F J → AttackStage
  label_state s =
      if lt s.anomaly_score (ratio 30 100)
      then normal
      else if lt s.anomaly_score (ratio 50 100)
      then recon
      else if lt s.anomaly_score (ratio 70 100)
      then escalation
      else surge

-- `for j in range(j, j + n): refined_labels[j] = SUSTAINED`
unfoldable pub mark : ℕ → ℕ → List AttackStage → List AttackStage
mark j zero refined = refined
mark j (suc n) refined = mark (suc j) n (set refined j sustained)

-- The second pass, at index `i` with the labels that are left.
unfoldable pub refine : ℕ → ℕ → List AttackStage → List AttackStage → List AttackStage
refine i consecutive_surge [] refined = refined
refine i consecutive_surge (label ∷ labels) refined =
    let consecutive = if is_surge label then suc consecutive_surge else 0 in
    refine (suc i) consecutive labels (
      if is_surge label
      then if leb sustained_min_consecutive_steps consecutive
        then mark (suc i - consecutive) consecutive refined
        else refined
      else refined)

module _ {ℓ} {F J : Type ℓ} ⦃f : Float F⦄ where
  unfoldable pub label_sequence : List (NetworkState F J) → List AttackStage
  label_sequence states =
      let raw_labels = map label_state states in refine 0 0 raw_labels raw_labels
