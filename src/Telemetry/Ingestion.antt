-- ===== src/Telemetry/Ingestion.antt =====
-- What `ingest_file` of forecasting/telemetry_collector.py leaves in the database.
use turbo_sh.Common.{
  ℕ, suc, ◌+◌, ◌<◌, ◌≡◌, ◌≢◌, refl, sym, ap, ◌∙◌, String, List, [], ◌∷◌, ◌++◌, map, false,
  append-nil, append_assoc, Option, none, some, str_eq, length, All, All-append, Float, arith,
}
use mathlib.Core.List.{map-append}
use mathlib.Core.Path.{ap₂, subst⁻¹}
use turbo_sh.NetworkState.{NetworkState}
use turbo_sh.Store.{Ref, Heap, StateStore}
use turbo_sh.Store
use turbo_sh.Persistence.{Codec, Row, Sqlite, Outcome, returned, raised, alloc, to_row}
use turbo_sh.Persistence.Flush.{IsDatabase, row_of, flush_to_sqlite-saved}
use turbo_sh.Serialization.{Parser}
use turbo_sh.Telemetry.{World, parse_line, append_state, flush_world, ingest_lines, ingest_file}

-- A state that may be missing, as a list.
abbrev pub states_of {ℓ} : {A : Type ℓ} → Option A → List A
states_of none = []
states_of (some a) = a ∷ []

module _ {ℓ} {F J : Type ℓ} ⦃f : Float F⦄ (parser : Parser F J) where
  -- The states that the lines of a file hold.
  abbrev pub parsed : List String → List (NetworkState F J)
  parsed [] = []
  parsed (line ∷ lines) = states_of (parse_line parser line) ++ parsed lines

cell-alloc {ℓ} :
    {F J : Type ℓ} (s : NetworkState F J) (h : Heap F J)
    → ((alloc s h).cell h.next ≡ s)
      × ((r : Ref) → r < h.next → (alloc s h).cell r ≡ h.cell r)
      × ((alloc s h).next ≡ suc h.next)
unfolding alloc
cell-alloc s h = (ground arith, (λ r lt. ground arith), refl)

All-weaken : (n : ℕ) (rs : List Ref) → All (λ r. r < n) rs → All (λ r. r < suc n) rs
All-weaken n [] all = tt
All-weaken n (r ∷ rs) (lt, all) = (omega arith, All-weaken n rs all)

pub returned≢raised : {n : ℕ} → returned n ≡ raised → ⊥
returned≢raised e = ground arith

count_states_of {ℓ} :
    {A : Type ℓ} (o : Option A) (count : ℕ) (rest : List A)
    → (elim o [ none ↦ count | some s ↦ suc count ]) + length rest
      ≡ count + length (states_of o ++ rest)
count_states_of none count rest = refl
count_states_of (some a) count rest = omega arith

module _ {ℓ} {F J D : Type ℓ} (codec : Codec J) (sql : Sqlite (Row F) D) where
  -- The rows that are written, then those of the states that wait.
  abbrev pub settled : World F J D → List (Row F)
  settled w = sql.rows w.db ++ map (row_of codec sql w.heap) w.store.unflushed

-- The states that wait are in memory, and the store has a database path.
abbrev pub IsReady {ℓ} : {F J D : Type ℓ} → World F J D → Type 0
IsReady w = All (λ r. r < w.heap.next) w.store.unflushed × (str_eq w.store.db_path "" ≡ false)

module _ {ℓ} {F J D : Type ℓ} ⦃f : Float F⦄ (parser : Parser F J) (codec : Codec J)
    (sql : Sqlite (Row F) D) (laws : IsDatabase sql)
    (reliable : (db : D) (rs : List (Row F)) → sql.insert_all db rs ≢ none) where
  rows-alloc :
      (s : NetworkState F J) (h : Heap F J) (rs : List Ref)
      → All (λ r. r < h.next) rs
      → map (row_of codec sql (alloc s h)) rs ≡ map (row_of codec sql h) rs
  rows-alloc s h [] all = refl
  rows-alloc s h (r ∷ rs) (lt, all) =
      ap₂ ◌∷◌ (ap (to_row codec sql) ((cell-alloc s h).1 r lt)) (rows-alloc s h rs all)

  pub append_state-settled :
      (o : Option (NetworkState F J)) (w : World F J D)
      → IsReady w
      → IsReady (append_state parser codec sql o w)
        × (settled codec sql (append_state parser codec sql o w)
            ≡ settled codec sql w ++ map (to_row codec sql) (states_of o))
  unfolding append_state Store.append
  append_state-settled none w ready = (ready, sym (append-nil (settled codec sql w)))
  append_state-settled (some s) w (all, path) =
      let h = w.heap in
      let (here, there, next_eq) = cell-alloc s h in
      (
        (
          subst⁻¹ (λ n. All (λ r. r < n) (w.store.unflushed ++ h.next ∷ [])) next_eq
              (All-append (λ r. r < suc h.next) w.store.unflushed (h.next ∷ [])
                (All-weaken h.next w.store.unflushed all) (omega arith, tt)),
          path,
        ),
        ap (◌++◌ (sql.rows w.db)) (
              map-append (row_of codec sql (alloc s h)) w.store.unflushed (h.next ∷ [])
              ∙ ap₂ ◌++◌ (rows-alloc s h w.store.unflushed all)
                  (ap (λ t. to_row codec sql t ∷ []) here))
            ∙ sym (append_assoc (sql.rows w.db) _ _),
      )

  -- A flush writes all that waits.
  pub flush_world-settled :
      (w : World F J D)
      → IsReady w
      → let (w', outcome) = flush_world parser codec sql w in
        IsReady w'
        × (settled codec sql w' ≡ settled codec sql w)
        × (w'.store.unflushed ≡ [])
        × (outcome ≡ returned (length w.store.unflushed))
  unfolding flush_world
  flush_world-settled w (all, path) =
      let (empty, written, outcome, same) =
        flush_to_sqlite-saved codec sql w.heap laws w.store w.db path (reliable w.db _) in
      (
        (subst⁻¹ (All (λ r. r < w.heap.next)) empty tt, ap (λ t. str_eq t.db_path "") same ∙ path),
        ap₂ (λ rs us. rs ++ map (row_of codec sql w.heap) us) written empty ∙ append-nil _,
        empty,
        outcome,
      )

  ingest_lines-settled :
      (lines : List String) (w : World F J D) (count : ℕ)
      → IsReady w
      → let (w', count') = ingest_lines parser codec sql lines w count in
        IsReady w'
        × (settled codec sql w'
            ≡ settled codec sql w ++ map (to_row codec sql) (parsed parser lines))
        × (count' ≡ count + length (parsed parser lines))
  unfolding ingest_lines
  ingest_lines-settled [] w count ready = (ready, sym (append-nil _), omega arith)
  ingest_lines-settled (line ∷ lines) w count ready =
      let o = parse_line parser line in
      let (ready', here) = append_state-settled o w ready in
      let (last_ready, there, counted) =
        ingest_lines-settled lines (append_state parser codec sql o w) _ ready' in
      (
        last_ready,
        there
            ∙ ap (λ rs. rs ++ map (to_row codec sql) (parsed parser lines)) here
            ∙ append_assoc (settled codec sql w) _ _
            ∙ ap (◌++◌ (settled codec sql w))
                (sym (map-append (to_row codec sql) (states_of o) (parsed parser lines))),
        counted ∙ count_states_of o count (parsed parser lines),
      )

  -- From a store with a database path, whose waiting states are in memory, and if no insertion
  -- raises, `ingest_file` of a file leaves the states of all its lines that parse in the database,
  -- behind the rows that were there and the states that waited, each once and in order; no state
  -- waits any more, and it returns the number of those lines.
  pub ingest_file-parsed :
      (lines : List String) (w : World F J D)
      → IsReady w
      → let (w', outcome) = ingest_file parser codec sql (some lines) w in
        (sql.rows w'.db ≡ settled codec sql w ++ map (to_row codec sql) (parsed parser lines))
        × (w'.store.unflushed ≡ [])
        × (outcome ≡ returned (length (parsed parser lines)))
  unfolding ingest_file
  ingest_file-parsed lines w ready =
      let (ready', after, counted) = ingest_lines-settled lines w 0 ready in
      let (w', count) = ingest_lines parser codec sql lines w 0 in
      let (_, same, empty, returns) = flush_world-settled w' ready' in
      let last = (flush_world parser codec sql w').0 in
      subst⁻¹
        (λ o.
          let out : World F J D × Outcome = elim o [
            | returned flushed ↦ (last, returned count)
            | raised ↦ (last, raised)
          ] in
          (sql.rows out.0.db ≡ settled codec sql w ++ map (to_row codec sql) (parsed parser lines))
          × (out.0.store.unflushed ≡ [])
          × (out.1 ≡ returned (length (parsed parser lines))))
        returns
        (
          sym (append-nil (sql.rows last.db))
              ∙ ap (λ us. sql.rows last.db ++ map (row_of codec sql last.heap) us) (sym empty)
              ∙ same
              ∙ after,
          empty,
          ap returned (counted ∙ omega arith),
        )
