-- ===== src/Persistence.antt =====
-- The SQLite side of `StateStore` in forecasting/state_store.py: `flush_to_sqlite` and
-- `load_from_sqlite`. SQLite is a parameter, and so are the text forms of `datetime` and of JSON.
pub mod Flush
pub mod Load
use turbo_sh.Common.{
  ℕ, suc, ◌==◌, String, List, [], ◌∷◌, ◌++◌, map, Bool, true, false, not, ◌||◌, Option, none, some,
  ℤ, if◌then◌else◌, length, take, str_eq,
}
use mathlib.Core.List.{reverse}
use turbo_sh.NetworkState.{NetworkState, Datetime}
use turbo_sh.Store.{Ref, Heap, StateStore, ip_of, push, index_append}

-- `isoformat`, `fromisoformat`, `json.dumps` and `json.loads`; `none` is a `ValueError`.
pub record Codec {ℓ} (J : Type ℓ) : Type ℓ where
  pub isoformat : Datetime → String
  pub fromisoformat : String → Option Datetime
  pub dumps : J → String
  pub loads : String → Option J
  pub empty_object : J

-- A row of the table `network_states`, without its `id`.
pub record Row {ℓ} (F : Type ℓ) : Type ℓ where
  pub timestamp : String
  pub ip_hash : String
  pub requests_per_ip_10s : F
  pub requests_per_ip_60s : F
  pub endpoint_entropy : F
  pub latency_spike : F
  pub error_rate : F
  pub request_variance : F
  pub anomaly_score : F
  pub action : String
  pub extended_features : String
  pub label : Option ℤ

-- A database `D`: its rows by ascending `id`, and the insertion of rows in one transaction, which
-- is `none` where SQLite raises; the database is then as before.
pub record Sqlite {ℓ} (R D : Type ℓ) : Type ℓ where
  pub rows : D → List R
  pub insert_all : D → List R → Option D

-- What a method returns: a count, or an exception.
pub data Outcome : Type 0 where
  returned : ℕ → Outcome
  raised : Outcome

-- `s` as an object of its own
unfoldable pub alloc {ℓ} : {F J : Type ℓ} → NetworkState F J → Heap F J → Heap F J
alloc s h = record { next = suc h.next; cell = λ r. if r == h.next then s else h.cell r }

module _ {ℓ} {F J D : Type ℓ} (codec : Codec J) (sql : Sqlite (Row F) D) where
  open codec use {isoformat, fromisoformat, dumps, loads, empty_object}
  open sql use {rows, insert_all}

  unfoldable pub to_row : NetworkState F J → Row F
  to_row s = record {
    timestamp = isoformat s.timestamp;
    ip_hash = s.ip_hash;
    requests_per_ip_10s = s.requests_per_ip_10s;
    requests_per_ip_60s = s.requests_per_ip_60s;
    endpoint_entropy = s.endpoint_entropy;
    latency_spike = s.latency_spike;
    error_rate = s.error_rate;
    request_variance = s.request_variance;
    anomaly_score = s.anomaly_score;
    action = s.action;
    extended_features = dumps s.extended_features;
    label = s.label;
  }

  -- The queue is emptied under the lock, before the rows are inserted.
  unfoldable pub flush_batch : Heap F J → StateStore → D → List Ref → StateStore × D × Outcome
  flush_batch h s db [] = (s, db, returned 0)
  flush_batch h s db (r ∷ rs) =
      let batch = map (λ x. to_row (h.cell x)) (r ∷ rs) in
      elim (insert_all db batch) [
        | none ↦ (record s { unflushed = [] }, db, raised)
        | some db' ↦ (record s { unflushed = [] }, db', returned (length batch))
      ]

  unfoldable pub flush_to_sqlite : Heap F J → StateStore → D → StateStore × D × Outcome
  unfolding flush_batch
  flush_to_sqlite h s db =
      if str_eq s.db_path "" then (s, db, returned 0) else flush_batch h s db s.unflushed

  -- `ext`: an empty text, or one that is no JSON, gives `{}`.
  unfoldable pub parse_extended : String → J
  parse_extended text =
      if str_eq text ""
      then empty_object
      else elim (loads text) [ none ↦ empty_object | some ext ↦ ext ]

  unfoldable pub of_row : Row F → Option (NetworkState F J)
  unfolding parse_extended
  of_row row = elim (fromisoformat row.timestamp) [
    | none ↦ none
    | some timestamp ↦ some (record {
      timestamp = timestamp;
      ip_hash = row.ip_hash;
      requests_per_ip_10s = row.requests_per_ip_10s;
      requests_per_ip_60s = row.requests_per_ip_60s;
      endpoint_entropy = row.endpoint_entropy;
      latency_spike = row.latency_spike;
      error_rate = row.error_rate;
      request_variance = row.request_variance;
      anomaly_score = row.anomaly_score;
      action = row.action;
      extended_features = parse_extended row.extended_features;
      label = row.label;
    })
  ]

  -- The loop over the rows: new objects, or the exception of a timestamp that does not parse.
  unfoldable pub load_rows : List (Row F) → Heap F J → Option (Heap F J × List Ref)
  load_rows [] h = some (h, [])
  load_rows (row ∷ rest) h = elim (of_row row) [
    | none ↦ none
    | some s ↦ elim (load_rows rest (alloc s h)) [
      | none ↦ none
      | some (h', rs) ↦ some (h', h.next ∷ rs)
    ]
  ]

  -- `ORDER BY id DESC LIMIT limit`, then `reversed`
  unfoldable pub latest : ℕ → D → List (Row F)
  latest limit db = reverse (take limit (reverse (rows db)))

  -- The loop under the lock: the buffer and the index, and not the queue.
  unfoldable pub remember_all : Heap F J → List Ref → StateStore → StateStore
  remember_all h [] s = s
  remember_all h (r ∷ rs) s = remember_all h rs (record s {
    buffer = push s.capacity r s.buffer;
    ip_index = index_append (ip_of h r) r s.ip_index;
  })

  -- `exists` is `os.path.exists(self.db_path)`.
  unfoldable pub load_from_sqlite :
      (exists : Bool) → ℕ → Heap F J → StateStore → D → Heap F J × StateStore × Outcome
  load_from_sqlite exists limit h s db =
      if str_eq s.db_path "" || not exists
      then (h, s, returned 0)
      else elim (load_rows (latest limit db) h) [
        | none ↦ (h, s, raised)
        | some (h', rs) ↦ (h', remember_all h' rs s, returned (length rs))
      ]
