-- ===== src/Persistence/Flush.antt =====
-- `flush_to_sqlite` of forecasting/state_store.py, alone and between appends.
use turbo_sh.Common.{
  ◌≡◌, ◌≢◌, refl, ap, sym, ◌∙◌, List, [], ◌∷◌, ◌++◌, map, append-nil, append_assoc, false, none,
  some, length, str_eq, Option-cases, inl, inr, length-map,
}
use mathlib.Core.List.{map-append}
use turbo_sh.Store
use turbo_sh.Store.{Ref, Heap, StateStore}
use turbo_sh.Persistence.{Codec, Row, Sqlite, returned, to_row, flush_batch, flush_to_sqlite}

-- What SQLite documents: an insertion that succeeds adds the rows at the end, in their order.
pub record IsDatabase {ℓ} {R D : Type ℓ} (sql : Sqlite R D) : Type ℓ where
  pub inserted :
      (db db' : D) (rs : List R)
      → sql.insert_all db rs ≡ some db'
      → sql.rows db' ≡ sql.rows db ++ rs

-- The calls that a collector makes.
pub data Call : Type 0 where
  append : Ref → Call
  flush : Call

abbrev pub appended : List Call → List Ref
appended [] = []
appended (append r ∷ calls) = r ∷ appended calls
appended (flush ∷ calls) = appended calls

module _ {ℓ} {F J D : Type ℓ} (codec : Codec J) (sql : Sqlite (Row F) D) (h : Heap F J) where
  open sql use {rows, insert_all}

  -- The row of a state.
  abbrev pub row_of : Ref → Row F
  row_of r = to_row codec sql (h.cell r)

  flush_batch-saved :
      (laws : IsDatabase sql) (s : StateStore) (db : D) (queue : List Ref)
      → s.unflushed ≡ queue
      → insert_all db (map row_of queue) ≢ none
      → let (s', db', outcome) = flush_batch codec sql h s db queue in
        (s'.unflushed ≡ [])
        × (rows db' ≡ rows db ++ map row_of queue)
        × (outcome ≡ returned (length queue))
        × (s' ≡ record s { unflushed = [] })
  unfolding flush_batch
  flush_batch-saved laws s db [] e more =
      (e, sym (append-nil (rows db)), refl, λ i. record s { unflushed = e i })
  flush_batch-saved laws s db (r ∷ rs) e more =
      let batch = map row_of (r ∷ rs) in
      elim (Option-cases (insert_all db batch)) [
        | inl failed ↦ absurd (more failed)
        | inr (db', saved) ↦
            rw (saved, flush_batch)
              (
                refl,
                laws.inserted db db' batch saved,
                ap returned (length-map row_of (r ∷ rs)),
                refl,
              )
      ]

  -- If the insertion does not raise, a flush of a store with a database path writes the queued
  -- states behind the rows of the database, each once and in order, and returns their number; of
  -- the store it changes only the queue, which is then empty.
  pub flush_to_sqlite-saved :
      (laws : IsDatabase sql) (s : StateStore) (db : D)
      → str_eq s.db_path "" ≡ false
      → insert_all db (map row_of s.unflushed) ≢ none
      → let (s', db', outcome) = flush_to_sqlite codec sql h s db in
        (s'.unflushed ≡ [])
        × (rows db' ≡ rows db ++ map row_of s.unflushed)
        × (outcome ≡ returned (length s.unflushed))
        × (s' ≡ record s { unflushed = [] })
  unfolding flush_to_sqlite
  flush_to_sqlite-saved laws s db path more =
      rw path (flush_batch-saved laws s db s.unflushed refl more)

  unfoldable pub run : List Call → StateStore × D → StateStore × D
  run [] w = w
  run (append r ∷ calls) (s, db) = run calls (Store.append h r s, db)
  run (flush ∷ calls) (s, db) =
      let (s', db', _) = flush_to_sqlite codec sql h s db in run calls (s', db')

  -- The rows that are written, then those that wait.
  abbrev pub recorded : StateStore × D → List (Row F)
  recorded (s, db) = rows db ++ map row_of s.unflushed

  module _ (laws : IsDatabase sql)
      (reliable : (db : D) (rs : List (Row F)) → insert_all db rs ≢ none) where
    recorded-append :
        (r : Ref) (s : StateStore) (db : D)
        → recorded (Store.append h r s, db) ≡ recorded (s, db) ++ row_of r ∷ []
    unfolding Store.append
    recorded-append r s db =
        ap (◌++◌ (rows db)) (map-append row_of s.unflushed (r ∷ []))
        ∙ sym (append_assoc (rows db) _ _)

    db_path-append : (r : Ref) (s : StateStore) → (Store.append h r s).db_path ≡ s.db_path
    unfolding Store.append
    db_path-append r s = refl

    recorded-flush :
        (s : StateStore) (db : D)
        → str_eq s.db_path "" ≡ false
        → let (s', db', _) = flush_to_sqlite codec sql h s db in
          (recorded (s', db') ≡ recorded (s, db)) × (s'.db_path ≡ s.db_path)
    recorded-flush s db path =
        let (empty, written, _, same) = flush_to_sqlite-saved laws s db path (reliable db _) in
        (rw (empty, written, append-nil), ap (λ t. t.db_path) same)

    -- In a store with a database path, if no insertion raises, then after any sequence of appends
    -- and flushes the rows of the database and the states that wait are together what they were
    -- at the start and the appended states behind it: each once, in order, whatever the times of
    -- the flushes.
    pub run-recorded :
        (calls : List Call) (s : StateStore) (db : D)
        → str_eq s.db_path "" ≡ false
        → recorded (run calls (s, db)) ≡ recorded (s, db) ++ map row_of (appended calls)
    unfolding run
    run-recorded [] s db path = sym (append-nil (recorded (s, db)))
    run-recorded (append r ∷ calls) s db path =
        run-recorded calls (Store.append h r s) db
          (ap (λ p. str_eq p "") (db_path-append r s) ∙ path)
        ∙ ap (λ l. l ++ map row_of (appended calls)) (recorded-append r s db)
        ∙ append_assoc (recorded (s, db)) (row_of r ∷ []) _
    run-recorded (flush ∷ calls) s db path =
        let (same, kept) = recorded-flush s db path in
        let after = flush_to_sqlite codec sql h s db in
        run-recorded calls after.0 after.1 (ap (λ p. str_eq p "") kept ∙ path)
        ∙ ap (λ l. l ++ map row_of (appended calls)) same
