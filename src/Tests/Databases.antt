-- ===== src/Tests/Databases.antt =====
-- Two databases, one that takes every row and one that takes none, and a text form of the times.
use Prim.Native.String.{◌∷◌ as ◌∷ₛ◌, [] as []ₛ}
use turbo_sh.Common.{
  ℕ, zero, suc, min, ◌≡◌, refl, ap, String, List, [], ◌∷◌, ◌++◌, map, Bool, true, false, Option,
  none, some, take_last, length, str_eq, Millionths, if◌then◌else◌, arith,
}
use turbo_sh.NetworkState.{NetworkState, Datetime}
use turbo_sh.Store.{StateStore, init, append}
use turbo_sh.Persistence.{Codec, Row, Sqlite, returned, to_row, flush_to_sqlite, load_from_sqlite}
use turbo_sh.Persistence.Flush.{
  IsDatabase, Call, appended, row_of, run, recorded, flush_to_sqlite-saved, run-recorded,
}
use turbo_sh.Persistence.Load.{IsCodec, load_from_sqlite-states}
use turbo_sh.Tests.{heap, cell_of}

abbrev pub Table : Type 0
Table = List (Row Millionths)

abbrev pub working : Sqlite (Row Millionths) Table
working = record { rows = λ db. db; insert_all = λ db rs. some (db ++ rs) }

abbrev full_disk : Sqlite (Row Millionths) Table
full_disk = record { rows = λ db. db; insert_all = λ db rs. none }

-- A time as a text: whether it is aware, and a mark for each microsecond.
abbrev write_count : ℕ → String
write_count zero = ""
write_count (suc n) = "i" ∷ₛ write_count n

abbrev read_count : String → ℕ
read_count []ₛ = 0
read_count (c ∷ₛ s) = suc (read_count s)

read_count-write_count : (n : ℕ) → read_count (write_count n) ≡ n
read_count-write_count zero = refl
read_count-write_count (suc n) = ap suc (read_count-write_count n)

abbrev read_time : String → Option Datetime
read_time []ₛ = none
read_time (c ∷ₛ s) = some (record { micros = read_count s; aware = str_eq (c ∷ₛ []ₛ) "Z" })

abbrev pub text_codec : Codec (Unit {0})
text_codec = record {
  isoformat = λ t. (if t.aware then "Z" else "-") ∷ₛ write_count t.micros;
  fromisoformat = read_time;
  dumps = λ j. "{}";
  loads = λ s. some tt;
  empty_object = tt;
}

read_time-written :
    (micros : ℕ) (aware : Bool)
    → read_time ((if aware then "Z" else "-") ∷ₛ write_count micros)
      ≡ some (record { micros = micros; aware = aware })
read_time-written micros true =
    ap (λ n. some (record { micros = n; aware = true })) (read_count-write_count micros)
read_time-written micros false =
    ap (λ n. some (record { micros = n; aware = false })) (read_count-write_count micros)

pub text_codec-IsCodec : IsCodec text_codec
text_codec-IsCodec = record {
  read_time = λ t. read_time-written t.micros t.aware;
  read_json = λ j. refl;
  json_text = λ j. refl;
}

pub working-IsDatabase : IsDatabase working
working-IsDatabase = record { inserted = λ db db' rs e. ground arith }

abbrev queued : StateStore
queued = append heap 1 (append heap 0 (init 5 "states.db"))

queued-unflushed : queued.unflushed ≡ 0 ∷ 1 ∷ []
unfolding append init
queued-unflushed = refl

flush_to_sqlite-saved_example :
    let (s', db', outcome) = flush_to_sqlite text_codec working heap queued [] in
    (s'.unflushed ≡ [])
    × (db' ≡ map (row_of text_codec working heap) queued.unflushed)
    × (outcome ≡ returned (length queued.unflushed))
    × (s' ≡ record queued { unflushed = [] })
unfolding append init
flush_to_sqlite-saved_example =
    flush_to_sqlite-saved text_codec working heap working-IsDatabase queued [] refl (λ e. cc)

abbrev calls : List Call
calls = Call.append 0 ∷ Call.append 2 ∷ Call.flush ∷ Call.append 1 ∷ []

run-recorded_example :
    recorded text_codec working heap (run text_codec working heap calls (init 2 "states.db", []))
    ≡ recorded text_codec working heap (init 2 "states.db", [])
      ++ map (row_of text_codec working heap) (appended calls)
unfolding init
run-recorded_example =
    run-recorded text_codec working heap working-IsDatabase (λ db rs e. cc) calls
      (init 2 "states.db") [] refl

abbrev saved : List (NetworkState Millionths Unit)
saved = cell_of 0 ∷ cell_of 1 ∷ cell_of 2 ∷ []

load_from_sqlite-states_example :
    let (h', s', outcome) =
      load_from_sqlite text_codec working true 2 heap
        (init 1 "states.db")
        (map (to_row text_codec working) saved) in
    (outcome ≡ returned (min 2 (length saved)))
    × (map h'.cell s'.buffer ≡ take_last 1 (take_last 2 saved))
    × (s'.unflushed ≡ [])
load_from_sqlite-states_example =
    load_from_sqlite-states text_codec working text_codec-IsCodec 1 2 "states.db" heap
      (map (to_row text_codec working) saved) saved refl refl
