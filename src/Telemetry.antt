-- ===== src/Telemetry.antt =====
-- forecasting/telemetry_collector.py: `TelemetryCollector`, which reads the log that the Go proxy
-- writes and feeds a `StateStore`. JSON, the file system and the clock are parameters.
pub mod Ingestion
pub mod Turns
pub mod Rotation
use turbo_sh.Common.{
  ℕ, zero, suc, ◌+◌, ◌-◌, String, List, [], ◌∷◌, Bool, true, false, not, ◌&&◌, ◌||◌, ◌==◌, Option,
  none, some, ℤ, if◌then◌else◌, ltb, str_eq, get_elem?, Float,
}
use turbo_sh.Serialization.{Parser, from_dict}
use turbo_sh.NetworkState.{NetworkState, Datetime}
use turbo_sh.Store.{Ref, Heap, StateStore}
use turbo_sh.Store
use turbo_sh.Persistence.{Codec, Row, Sqlite, Outcome, returned, raised, alloc, flush_to_sqlite}

-- The file at the path of the log: which file it is, and what `os.stat` says of it.
pub record File : Type 0 where
  pub handle : ℕ
  pub inode : ℕ
  pub ctime : ℕ
  pub size : ℕ

-- What one turn of the loop of `run` meets: the file at the path, if there is one, whether `open` still
-- finds it, the lines of each file, of those that are no longer at the path too, and the time.
pub record Turn {ℓ} (F : Type ℓ) : Type ℓ where
  pub at_path : Option File
  pub opens : Bool
  pub content : ℕ → List String
  pub time : F

module _ {ℓ} {F J : Type ℓ} ⦃f : Float F⦄ (parser : Parser F J) where
  open parser use {strip, loads}

  -- `parse_line`: an empty line, and one that raises, give no state.
  unfoldable pub parse_line : String → Option (NetworkState F J)
  unfolding from_dict
  parse_line line =
      let clean_line = strip line in
      if str_eq clean_line ""
      then none
      else elim (loads clean_line) [ none ↦ none | some fields ↦ from_dict parser fields ]

  -- `if line: ...`
  abbrev pub line_state : Option String → Option (NetworkState F J)
  line_state none = none
  line_state (some line) = parse_line line

-- `not line`
abbrev pub is_none {ℓ} : {A : Type ℓ} → Option A → Bool
is_none none = true
is_none (some a) = false

-- The states in memory, the store and the database.
pub record World {ℓ} (F J D : Type ℓ) : Type ℓ where
  pub heap : Heap F J
  pub store : StateStore
  pub db : D

-- The file object, with the number of lines that were read and the position that `tell` gives, and
-- what `run` remembers of the file.
pub record Reader : Type 0 where
  pub file : ℕ
  pub lines_read : ℕ
  pub position : ℕ
  pub last_inode : ℕ
  pub last_ctime : ℕ

-- Whether the file at the path is another one than the open one.
unfoldable pub rotated : File → Reader → Bool
rotated curr_stat reader =
    (not (reader.last_inode == 0)
      && (not (curr_stat.inode == 0) && not (curr_stat.inode == reader.last_inode)))
    || (ltb curr_stat.size reader.position
        || (not (reader.last_ctime == 0) && not (curr_stat.ctime == reader.last_ctime)))

abbrev pub opened : File → Reader
opened file = record {
  file = file.handle;
  lines_read = 0;
  position = 0;
  last_inode = file.inode;
  last_ctime = file.ctime;
}

-- What a turn reads from: nothing, as long as there is no file, or a reader. It raises where `open`
-- fails: the first `open` with its own error, one after a rotation with the `ValueError` of `readline`
-- on the closed file.
pub data Opening : Type 0 where
  waits fails : Opening
  reads : Reader → Opening

abbrev pub open_file : Bool → File → Opening
open_file opens file = if opens then reads (opened file) else fails

unfoldable pub reader_of : Option File → Bool → Option Reader → Opening
unfolding rotated
reader_of none opens none = waits
reader_of none opens (some reader) = reads reader
reader_of (some file) opens none = open_file opens file
reader_of (some file) opens (some reader) =
    if rotated file reader then open_file opens file else reads reader

-- `file_obj.readline()`, with `none` at the end of the file
unfoldable pub readline {ℓ} : {F : Type ℓ} → Turn F → Reader → Option String
readline turn reader = get_elem? (turn.content reader.file) reader.lines_read

-- The reader behind a line of so many bytes.
abbrev pub behind : (String → ℕ) → Option String → Reader → Reader
behind bytes none reader = reader
behind bytes (some line) reader = record reader {
  lines_read = suc reader.lines_read;
  position = reader.position + bytes line;
}

module _ {ℓ} {F J D : Type ℓ} ⦃f : Float F⦄ (parser : Parser F J) (codec : Codec J)
    (sql : Sqlite (Row F) D) where
  -- `self.state_store.append(state)`, for a state that is an object of its own
  unfoldable pub append_state : Option (NetworkState F J) → World F J D → World F J D
  append_state none w = w
  append_state (some s) w =
      let h = alloc s w.heap in
      record { heap = h; store = Store.append h w.heap.next w.store; db = w.db }

  -- `self.state_store.flush_to_sqlite()`
  unfoldable pub flush_world : World F J D → World F J D × Outcome
  flush_world w =
      let (store', db', outcome) = flush_to_sqlite codec sql w.heap w.store w.db in
      (record { heap = w.heap; store = store'; db = db' }, outcome)

  -- `for line in f`, with the count
  unfoldable pub ingest_lines : List String → World F J D → ℕ → World F J D × ℕ
  unfolding append_state
  ingest_lines [] w count = (w, count)
  ingest_lines (line ∷ lines) w count =
      let state = parse_line parser line in
      ingest_lines lines (append_state state w) (elim state [ none ↦ count | some s ↦ suc count ])

  -- `ingest_file` of the lines of a file, or of no file; an exception of the flush passes through.
  unfoldable pub ingest_file : Option (List String) → World F J D → World F J D × Outcome
  unfolding ingest_lines flush_world
  ingest_file none w = (w, returned 0)
  ingest_file (some lines) w =
      let (w', count) = ingest_lines lines w 0 in
      let (w'', outcome) = flush_world w' in
      elim outcome [ returned flushed ↦ (w'', returned count) | raised ↦ (w'', raised) ]

  -- The loop of `run`, for the turns until it is stopped or interrupted, and whether it raised. A turn
  -- without a file does nothing else, and the end of the file ends the loop unless it follows the file.
  unfoldable pub run_turns :
      (bytes : String → ℕ) (follow : Bool) (auto_flush_interval : F)
      → List (Turn F)
      → Option Reader
      → F
      → World F J D
      → World F J D × Bool
  unfolding reader_of readline append_state flush_world
  run_turns bytes follow interval [] reader last_flush w = (w, false)
  run_turns bytes follow interval (turn ∷ turns) reader last_flush w =
      elim (reader_of turn.at_path turn.opens reader) [
        | waits ↦ run_turns bytes follow interval turns none last_flush w
        | fails ↦ (w, true)
        | reads r ↦
            let line = readline turn r in
            elim (is_none line && not follow) [
              | true ↦ (w, false)
              | false ↦
                  let r' : Option Reader = some (behind bytes line r) in
                  let w' = append_state (line_state parser line) w in
                  elim (f.le interval (f.sub turn.time last_flush)) [
                    | false ↦ run_turns bytes follow interval turns r' last_flush w'
                    | true ↦
                        let (w'', outcome) = flush_world w' in
                        elim outcome [
                          | raised ↦ (w'', true)
                          | returned flushed ↦
                              run_turns bytes follow interval turns r' turn.time w''
                        ]
                  ]
            ]
      ]

  -- `run`: the turns, and the flush of `finally`; an exception of the loop is raised behind it.
  unfoldable pub run :
      (bytes : String → ℕ) (follow : Bool) (auto_flush_interval : F)
      → List (Turn F)
      → F
      → World F J D
      → World F J D × Outcome
  unfolding run_turns
  run bytes follow interval turns start w =
      let (w', failed) = run_turns bytes follow interval turns none start w in
      let (w'', outcome) = flush_world w' in (w'', if failed then raised else outcome)
