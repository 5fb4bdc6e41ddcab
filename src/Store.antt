-- ===== src/Store.antt =====
-- `StateStore` of forecasting/state_store.py: the bounded buffer, the index by IP and the queue of
-- states not yet written. The lists hold references, since a state is a shared, mutable object: the
-- labeler writes labels into the very objects that the store holds. The lock makes each method one
-- step.
pub mod Deque
pub mod Index
pub mod History
pub mod Ranges
pub mod Sequences
use turbo_sh.Common.{
  ℕ, zero, suc, ◌+◌, ◌-◌, String, List, [], ◌∷◌, ◌++◌, Bool, true, false, not, ◌&&◌, Option, none,
  some, ℤ, pos, negsuc, if◌then◌else◌, leb, ltb, length, take, drop, take_last, str_eq,
}
use turbo_sh.NetworkState.{NetworkState, Datetime}

-- A reference to a state, and the states in memory: those below `next` are allocated.
abbrev pub Ref : Type 0
Ref = ℕ

pub record Heap {ℓ} (F J : Type ℓ) : Type ℓ where
  pub next : ℕ
  pub cell : Ref → NetworkState F J

abbrev pub IpIndex : Type 0
IpIndex = List (String × List Ref)

pub record StateStore : Type 0 where
  pub capacity : ℕ
  pub db_path : String
  pub buffer : List Ref
  pub ip_index : IpIndex
  pub unflushed : List Ref

-- `deque(maxlen=maxlen).append`: the oldest entry makes room.
unfoldable pub push {ℓ} : {A : Type ℓ} → ℕ → A → List A → List A
push maxlen x xs = let ys = xs ++ x ∷ [] in if ltb maxlen (length ys) then drop 1 ys else ys

abbrev pub index_maxlen : ℕ
index_maxlen = 200

-- `if k not in index: index[k] = deque(maxlen=200)`, then `index[k].append(r)`
unfoldable pub index_append : String → Ref → IpIndex → IpIndex
unfolding push
index_append k r [] = (k, push index_maxlen r []) ∷ []
index_append k r ((j, d) ∷ m) =
    if str_eq j k then (j, push index_maxlen r d) ∷ m else (j, d) ∷ index_append k r m

-- `index[k]`, where a missing key reads as no history.
unfoldable pub index_get : String → IpIndex → List Ref
index_get k [] = []
index_get k ((j, d) ∷ m) = if str_eq j k then d else index_get k m

-- `__init__`, without the creation of the tables
unfoldable pub init : ℕ → String → StateStore
init capacity db_path = record {
  capacity = capacity;
  db_path = db_path;
  buffer = [];
  ip_index = [];
  unflushed = [];
}

-- `xs[-n:]`
abbrev pub tail_slice {ℓ} : {A : Type ℓ} → ℤ → List A → List A
tail_slice (pos zero) xs = xs
tail_slice (pos (suc n)) xs = take_last (suc n) xs
tail_slice (negsuc n) xs = drop (suc n) xs

-- `a <= b` on `datetime`; `none` is the `TypeError` for a naive and an aware one.
unfoldable pub le_datetime : Datetime → Datetime → Option Bool
le_datetime a b =
    if a.aware
    then if b.aware then some (leb a.micros b.micros) else none
    else if b.aware
    then none
    else some (leb a.micros b.micros)

-- `start <= t <= end`
unfoldable pub in_range : Datetime → Datetime → Datetime → Option Bool
unfolding le_datetime
in_range start end t = elim (le_datetime start t) [
  | none ↦ none
  | some false ↦ some false
  | some true ↦ le_datetime t end
]

module _ {ℓ} {F J : Type ℓ} (h : Heap F J) where
  abbrev pub ip_of : Ref → String
  ip_of r = (h.cell r).ip_hash

  unfoldable pub append : Ref → StateStore → StateStore
  append r s = record s {
    buffer = push s.capacity r s.buffer;
    ip_index = index_append (ip_of r) r s.ip_index;
    unflushed = s.unflushed ++ r ∷ [];
  }

  -- A naive timestamp is read as UTC if `start` is aware.
  unfoldable pub comparable : Datetime → Ref → Datetime
  comparable start r =
      let t = (h.cell r).timestamp in
      if not t.aware && start.aware then record t { aware = true } else t

  -- The loop of `get_time_range` over the buffer.
  unfoldable pub collect_range : Datetime → Datetime → List Ref → Option (List Ref)
  unfolding in_range comparable
  collect_range start end [] = some []
  collect_range start end (r ∷ rs) = elim (in_range start end (comparable start r)) [
    | none ↦ none
    | some true ↦ elim (collect_range start end rs) [ none ↦ none | some out ↦ some (r ∷ out) ]
    | some false ↦ collect_range start end rs
  ]

  unfoldable pub get_time_range : Datetime → Datetime → StateStore → Option (List Ref)
  get_time_range start end s = collect_range start end s.buffer

unfoldable pub get_ip_history : String → ℤ → StateStore → List Ref
unfolding index_get
get_ip_history ip n s = tail_slice n (index_get ip s.ip_index)

-- `for i in range(i, i + n): sequences.append(xs[i : i + w])`
unfoldable pub windows_from {ℓ} : {A : Type ℓ} → ℕ → ℕ → ℕ → List A → List (List A)
windows_from zero i w xs = []
windows_from (suc n) i w xs = take w (drop i xs) ∷ windows_from n (suc i) w xs

-- The loop of `get_all_sequences` over the index; `range` of a negative number is empty.
unfoldable pub sequences : ℕ → ℕ → IpIndex → List (List Ref)
sequences window_size min_length [] = []
sequences window_size min_length ((_, states) ∷ m) =
    let rest = sequences window_size min_length m in
    if ltb (length states) min_length
    then rest
    else (windows_from (length states + 1 - window_size) 0 window_size states ++ rest)

unfoldable pub get_all_sequences : ℕ → ℕ → StateStore → List (List Ref)
get_all_sequences window_size min_length s = sequences window_size min_length s.ip_index

-- `__len__`
unfoldable pub size : StateStore → ℕ
size s = length s.buffer
