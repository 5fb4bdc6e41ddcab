-- ===== src/Labeler/Dataset.antt =====
-- `generate_labeled_dataset` of forecasting/state_labeler.py: it labels the states of the buffer, by
-- IP and in the order of time, and writes the labels into the stored objects.
pub mod Records
use turbo_sh.Common.{
  ℕ, ◌==◌, String, List, [], ◌∷◌, ◌++◌, map, Bool, true, false, not, ◌&&◌, ◌||◌, Option, none, some,
  ℤ, pos, if◌then◌else◌, Float,
}
use turbo_sh.Config.{AttackStage, stage_value, stage_name?}
use turbo_sh.NetworkState.{NetworkState}
use turbo_sh.Store.{Ref, Heap, StateStore, ip_of}
use turbo_sh.Labeler.{label_sequence}
use turbo_sh.Features.{group_append, sort_by}

-- A row: the state as it was when its dictionary was made, and the two added keys.
pub record LabeledRecord {ℓ} (F J : Type ℓ) : Type ℓ where
  pub state : NetworkState F J
  pub stage_label : ℤ
  pub stage_name : Option String

module _ {ℓ} {F J : Type ℓ} ⦃f : Float F⦄ where
  -- `records_by_ip.setdefault(s.ip_hash, []).append(s)`, over the buffer
  unfoldable pub group_states :
      Heap F J → List (String × List Ref) → List Ref → List (String × List Ref)
  unfolding group_append
  group_states h groups [] = groups
  group_states h groups (r ∷ rs) = group_states h (group_append (ip_of h r) r groups) rs

  -- The states all have the time zone that this one says, or all have none.
  abbrev pub all_aware : Heap F J → Bool → List Ref → Bool
  all_aware h aware [] = true
  all_aware h aware (r ∷ rs) =
      let same = if aware then (h.cell r).timestamp.aware else not (h.cell r).timestamp.aware in
      same && all_aware h aware rs

  -- `sorted` by time; `none` is the `TypeError` where naive and aware times meet.
  unfoldable pub sort_states : Heap F J → List Ref → Option (List Ref)
  unfolding sort_by
  sort_states h [] = some []
  sort_states h (r ∷ rs) =
      if all_aware h (h.cell r).timestamp.aware (r ∷ rs)
      then some (sort_by (λ x. (h.cell x).timestamp.micros) (r ∷ rs))
      else none

  -- `state.label = label`, on the object itself
  unfoldable pub set_label : Ref → ℤ → Heap F J → Heap F J
  set_label r label h = record h {
    cell = λ x. if x == r then record (h.cell x) { label = some label } else h.cell x;
  }

  -- The loop over a group and its labels.
  unfoldable pub write_labels :
      List Ref → List AttackStage → Heap F J → Heap F J × List (LabeledRecord F J)
  unfolding set_label
  write_labels [] labels h = (h, [])
  write_labels (r ∷ rs) [] h = (h, [])
  write_labels (r ∷ rs) (label ∷ labels) h =
      let h' = set_label r (pos (stage_value label)) h in
      let (h'', rows) = write_labels rs labels h' in
      (
        h'',
        record {
          state = h'.cell r;
          stage_label = pos (stage_value label);
          stage_name = stage_name? (pos (stage_value label));
        }
            ∷ rows,
      )

  unfoldable pub label_groups :
      List (String × List Ref) → Heap F J → Option (Heap F J × List (LabeledRecord F J))
  unfolding sort_states label_sequence write_labels
  label_groups [] h = some (h, [])
  label_groups ((_, rs) ∷ groups) h = elim (sort_states h rs) [
    | none ↦ none
    | some sorted_states ↦
        let (h', rows) = write_labels sorted_states (label_sequence (map h.cell sorted_states)) h in
        elim (label_groups groups h') [ none ↦ none | some (h'', rest) ↦ some (h'', rows ++ rest) ]
  ]

  unfoldable pub generate_labeled_dataset :
      StateStore → Heap F J → Option (Heap F J × List (LabeledRecord F J))
  unfolding group_states label_groups
  generate_labeled_dataset store h = label_groups (group_states h [] store.buffer) h
