-- ===== src/Labeler/Dataset/Records.antt =====
-- The records of `generate_labeled_dataset` in forecasting/state_labeler.py.
use turbo_sh.Common.{
  ℕ, suc, ◌+◌, ◌≡◌, refl, ap, ◌∙◌, String, str_eq, List, [], ◌∷◌, ◌++◌, map, length, length-append,
  length-map, true, some, Float, All, All-append, ℤ, pos, ◌==◌, arith, Bool-cases, inl, inr,
}
use turbo_sh.Config.{AttackStage, stage_value}
use turbo_sh.Store.{Ref, Heap, StateStore, ip_of}
use turbo_sh.Labeler.{label_state, label_sequence}
use turbo_sh.Labeler.Runs.{promote, label_sequence-promote}
use turbo_sh.Features.{group_append, sort_by, insert_by}
use turbo_sh.Labeler.Dataset.{
  LabeledRecord, group_states, sort_states, all_aware, write_labels, set_label, label_groups,
  generate_labeled_dataset,
}

length-insert_by {ℓ} :
    {A : Type ℓ} (key : A → ℕ) (x : A) (xs : List A) → length (insert_by key x xs) ≡ suc (length xs)
unfolding insert_by
length-insert_by key x [] = refl
length-insert_by key x (y ∷ ys) = ground (arith, length-insert_by key x ys)

length-sort_by {ℓ} : {A : Type ℓ} (key : A → ℕ) (xs : List A) → length (sort_by key xs) ≡ length xs
unfolding sort_by
length-sort_by key [] = refl
length-sort_by key (x ∷ xs) =
    length-insert_by key x (sort_by key xs) ∙ ap suc (length-sort_by key xs)

length-promote : (b : ℕ) (ls : List AttackStage) → length (promote b ls) ≡ length ls
length-promote b [] = refl
length-promote b (l ∷ ls) = ap suc (length-promote _ ls)

abbrev grouped : List (String × List Ref) → ℕ
grouped [] = 0
grouped ((_, rs) ∷ groups) = length rs + grouped groups

grouped-group_append :
    (k : String) (r : Ref) (groups : List (String × List Ref))
    → grouped (group_append k r groups) ≡ suc (grouped groups)
unfolding group_append
grouped-group_append k r [] = refl
grouped-group_append k r ((j, rs) ∷ groups) =
    ground (arith, length-append rs (r ∷ []), grouped-group_append k r groups)

module _ {ℓ} {F J : Type ℓ} ⦃f : Float F⦄ where
  grouped-group_states :
      (h : Heap F J) (groups : List (String × List Ref)) (rs : List Ref)
      → grouped (group_states h groups rs) ≡ grouped groups + length rs
  unfolding group_states
  grouped-group_states h groups [] = omega arith
  grouped-group_states h groups (r ∷ rs) = omega (
    arith,
    grouped-group_states h (group_append (ip_of h r) r groups) rs,
    grouped-group_append (ip_of h r) r groups,
  )

  length-write_labels :
      (rs : List Ref) (labels : List AttackStage) (h : Heap F J)
      → length labels ≡ length rs
      → length (write_labels rs labels h).1 ≡ length rs
  unfolding write_labels
  length-write_labels [] labels h e = refl
  length-write_labels (r ∷ rs) [] h e = absurd (omega arith)
  length-write_labels (r ∷ rs) (l ∷ labels) h e =
      ap suc (length-write_labels rs labels _ (omega arith))

  length-sort_states :
      (h : Heap F J) (rs sorted_states : List Ref)
      → sort_states h rs ≡ some sorted_states
      → length sorted_states ≡ length rs
  unfolding sort_states
  length-sort_states h [] sorted_states e = ground arith
  length-sort_states h (r ∷ rs) sorted_states e =
      ground (arith, length-sort_by (λ x. (h.cell x).timestamp.micros) (r ∷ rs))

  length-label_sequence :
      (h : Heap F J) (rs : List Ref) → length (label_sequence (map h.cell rs)) ≡ length rs
  length-label_sequence h rs =
      ap length (label_sequence-promote (map h.cell rs))
      ∙ length-promote 0 (map label_state (map h.cell rs))
      ∙ length-map label_state (map h.cell rs)
      ∙ length-map h.cell rs

  -- The states are aware of their time zone.
  abbrev pub AllAware : Heap F J → List Ref → Type 0
  AllAware h rs = All (λ r. (h.cell r).timestamp.aware ≡ true) rs

  set_label-timestamp :
      (r x : Ref) (l : ℤ) (h : Heap F J)
      → ((set_label r l h).cell x).timestamp ≡ (h.cell x).timestamp
  unfolding set_label
  set_label-timestamp r x l h = elim (Bool-cases (x == r)) [
    | inl here ↦ rw here refl
    | inr away ↦ rw away refl
  ]

  write_labels-timestamp :
      (rs : List Ref) (labels : List AttackStage) (h : Heap F J) (x : Ref)
      → ((write_labels rs labels h).0.cell x).timestamp ≡ (h.cell x).timestamp
  unfolding write_labels
  write_labels-timestamp [] labels h x = refl
  write_labels-timestamp (r ∷ rs) [] h x = refl
  write_labels-timestamp (r ∷ rs) (l ∷ labels) h x =
      write_labels-timestamp rs labels (set_label r (pos (stage_value l)) h) x
      ∙ set_label-timestamp r x (pos (stage_value l)) h

  all_aware-true : (h : Heap F J) (rs : List Ref) → AllAware h rs → all_aware h true rs ≡ true
  all_aware-true h [] a = refl
  all_aware-true h (r ∷ rs) a = ground (arith, a.0, all_aware-true h rs a.1)

  sort_states_total :
      (h : Heap F J) (rs : List Ref)
      → AllAware h rs
      → (sorted_states : List Ref) × (sort_states h rs ≡ some sorted_states)
  unfolding sort_states
  sort_states_total h [] a = ([], refl)
  sort_states_total h (r ∷ rs) a =
      let same : all_aware h (h.cell r).timestamp.aware (r ∷ rs) ≡ true =
        ap (λ b. all_aware h b (r ∷ rs)) a.0 ∙ all_aware-true h (r ∷ rs) a in
      (sort_by (λ x. (h.cell x).timestamp.micros) (r ∷ rs), rw same refl)

  abbrev AllGroups : Heap F J → List (String × List Ref) → Type 0
  AllGroups h [] = Unit
  AllGroups h ((_, rs) ∷ groups) = AllAware h rs × AllGroups h groups

  AllAware-timestamp :
      (h h' : Heap F J) (rs : List Ref)
      → ((x : Ref) → (h'.cell x).timestamp ≡ (h.cell x).timestamp)
      → AllAware h rs
      → AllAware h' rs
  AllAware-timestamp h h' [] same a = tt
  AllAware-timestamp h h' (r ∷ rs) same a =
      (ap (λ t. t.aware) (same r) ∙ a.0, AllAware-timestamp h h' rs same a.1)

  AllGroups-timestamp :
      (h h' : Heap F J) (groups : List (String × List Ref))
      → ((x : Ref) → (h'.cell x).timestamp ≡ (h.cell x).timestamp)
      → AllGroups h groups
      → AllGroups h' groups
  AllGroups-timestamp h h' [] same a = tt
  AllGroups-timestamp h h' ((_, rs) ∷ groups) same a =
      (AllAware-timestamp h h' rs same a.0, AllGroups-timestamp h h' groups same a.1)

  AllGroups-group_append :
      (h : Heap F J) (k : String) (r : Ref) (groups : List (String × List Ref))
      → (h.cell r).timestamp.aware ≡ true
      → AllGroups h groups
      → AllGroups h (group_append k r groups)
  unfolding group_append
  AllGroups-group_append h k r [] aware a = ((aware, tt), tt)
  AllGroups-group_append h k r ((j, rs) ∷ groups) aware a = elim (Bool-cases (str_eq j k)) [
    | inl here ↦
        rw here
          (All-append (λ x. (h.cell x).timestamp.aware ≡ true) rs (r ∷ []) a.0 (aware, tt), a.1)
    | inr away ↦ rw away (a.0, AllGroups-group_append h k r groups aware a.1)
  ]

  AllGroups-group_states :
      (h : Heap F J) (groups : List (String × List Ref)) (rs : List Ref)
      → AllAware h rs
      → AllGroups h groups
      → AllGroups h (group_states h groups rs)
  unfolding group_states
  AllGroups-group_states h groups [] a g = g
  AllGroups-group_states h groups (r ∷ rs) a g =
      AllGroups-group_states h (group_append (ip_of h r) r groups) rs a.1
        (AllGroups-group_append h (ip_of h r) r groups a.0 g)

  label_groups_total :
      (groups : List (String × List Ref)) (h : Heap F J)
      → AllGroups h groups
      → (h' : Heap F J) × (rows : List (LabeledRecord F J)) × (label_groups groups h
          ≡ some (h', rows))
        × (length rows ≡ grouped groups)
  unfolding label_groups
  label_groups_total [] h a = (h, [], refl, refl)
  label_groups_total ((ip, rs) ∷ groups) h a =
      let (sorted_states, ran) = sort_states_total h rs a.0 in
      let labels = label_sequence (map h.cell sorted_states) in
      let written = write_labels sorted_states labels h in
      let (h'', rest, ran_rest, count) = label_groups_total groups written.0 (
        AllGroups-timestamp h written.0 groups (write_labels-timestamp sorted_states labels h)
          a.1) in
      (
        h'',
        written.1 ++ rest,
        rw (ran, ran_rest, label_groups) refl,
        length-append written.1 rest
            ∙ omega (
              arith,
              length-write_labels sorted_states labels h (length-label_sequence h sorted_states),
              length-sort_states h rs sorted_states ran,
              count,
            ),
      )

  -- If the states of the buffer are all aware of their time zone, the labelled dataset is made, and
  -- it has exactly as many records as the buffer has states.
  pub generate_labeled_dataset-length :
      (store : StateStore) (h : Heap F J)
      → AllAware h store.buffer
      → (h' : Heap F J) × (rows : List (LabeledRecord F J)) × (generate_labeled_dataset store h
          ≡ some (h', rows))
        × (length rows ≡ length store.buffer)
  unfolding generate_labeled_dataset
  generate_labeled_dataset-length store h a =
      let (h', rows, ran, count) =
        label_groups_total (group_states h [] store.buffer) h
          (AllGroups-group_states h [] store.buffer a tt) in
      (h', rows, ran, count ∙ grouped-group_states h [] store.buffer ∙ omega arith)
