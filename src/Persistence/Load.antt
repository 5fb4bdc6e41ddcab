-- ===== src/Persistence/Load.antt =====
-- `load_from_sqlite` of forecasting/state_store.py, on rows that a flush wrote.
use turbo_sh.Common.{
  ℕ, zero, suc, ◌-◌, ◌≤◌, ◌<◌, min, ◌≡◌, refl, ap, sym, ◌∙◌, String, List, [], ◌∷◌, ◌++◌, map,
  append-nil, append_assoc, true, false, some, length, str_eq, arith, inl, inr, length-map, take,
  drop, length-append, take_last, take_of_length-le, take-append-drop, length-drop,
  drop_of_length-le, ◌⊎◌,
}
use mathlib.Core.Path.{ap₂}
use mathlib.Core.List.{reverse, reverse-append, reverse-reverse, reverse-cons}
use turbo_sh.NetworkState.{NetworkState, Datetime}
use turbo_sh.Store.{Ref, Heap, StateStore, init, push}
use turbo_sh.Store.Deque.{push-take_last}
use turbo_sh.Persistence.{
  Codec, Row, Sqlite, returned, to_row, of_row, alloc, load_rows, latest, remember_all,
  load_from_sqlite,
}

module _ {ℓ} {A : Type ℓ} where
  length-reverse : (xs : List A) → length (reverse xs) ≡ length xs
  length-reverse [] = refl
  length-reverse (x ∷ xs) =
      ap length (reverse-cons x xs)
      ∙ omega (arith, length-append (reverse xs) (x ∷ []), length-reverse xs)

  take_append_exact : (n : ℕ) (xs ys : List A) → length xs ≡ n → take n (xs ++ ys) ≡ xs
  take_append_exact zero [] ys e = refl
  take_append_exact zero (x ∷ xs) ys e = absurd (omega arith)
  take_append_exact (suc n) [] ys e = absurd (omega arith)
  take_append_exact (suc n) (x ∷ xs) ys e = ap (◌∷◌ x) (take_append_exact n xs ys (omega arith))

  -- The newest `n` rows, in descending order and turned round, are the last `n`.
  take-reverse : (n : ℕ) (xs : List A) → reverse (take n (reverse xs)) ≡ take_last n xs
  take-reverse n xs =
      let k = length xs - n in
      let cases : (length xs ≤ n) ⊎ (n ≤ length xs) = omega arith in
      elim cases [
        | inl short ↦
            ap reverse (take_of_length-le n (reverse xs) (omega (arith, length-reverse xs)))
            ∙ reverse-reverse xs
            ∙ ap (λ m. drop m xs) {x = 0} {y = k} (omega arith)
        | inr long ↦
            ap (λ l. reverse (take n (reverse l))) (sym (take-append-drop k xs))
            ∙ ap (λ l. reverse (take n l)) (reverse-append (take k xs) (drop k xs))
            ∙ ap reverse (
                take_append_exact n (reverse (drop k xs)) (reverse (take k xs))
                  (omega (arith, length-reverse (drop k xs), length-drop k xs)))
            ∙ reverse-reverse (drop k xs)
      ]

  map-drop {κ} :
      {B : Type κ} (f : A → B) (n : ℕ) (xs : List A) → map f (drop n xs) ≡ drop n (map f xs)
  map-drop f zero xs = refl
  map-drop f (suc n) [] = refl
  map-drop f (suc n) (x ∷ xs) = map-drop f n xs

  map-take_last {κ} :
      {B : Type κ} (f : A → B) (n : ℕ) (xs : List A)
      → map f (take_last n xs) ≡ take_last n (map f xs)
  map-take_last f n xs =
      map-drop f (length xs - n) xs ∙ ap (λ m. drop (m - n) (map f xs)) (sym (length-map f xs))

-- What is documented of the text forms: each is read back as what was written, and no JSON text is
-- empty.
pub record IsCodec {ℓ} {J : Type ℓ} (codec : Codec J) : Type ℓ where
  pub read_time : (t : Datetime) → codec.fromisoformat (codec.isoformat t) ≡ some t
  pub read_json : (j : J) → codec.loads (codec.dumps j) ≡ some j
  pub json_text : (j : J) → str_eq (codec.dumps j) "" ≡ false

module _ {ℓ} {F J : Type ℓ} where
  alloc-next : (s : NetworkState F J) (h : Heap F J) → h.next < (alloc s h).next
  unfolding alloc
  alloc-next s h = omega arith

  alloc-cell : (s : NetworkState F J) (h : Heap F J) → (alloc s h).cell h.next ≡ s
  unfolding alloc
  alloc-cell s h = ground arith

  alloc-below :
      (s : NetworkState F J) (h : Heap F J) (r : Ref) → r < h.next → (alloc s h).cell r ≡ h.cell r
  unfolding alloc
  alloc-below s h r below = ground arith

module _ {ℓ} {F J D : Type ℓ} (codec : Codec J) (sql : Sqlite (Row F) D)
    (laws : IsCodec codec) where
  -- A state is read back from its row.
  pub of_row-to_row : (s : NetworkState F J) → of_row codec sql (to_row codec sql s) ≡ some s
  unfolding of_row to_row
  of_row-to_row s = ground (
    arith,
    laws.read_time s.timestamp,
    laws.json_text s.extended_features,
    laws.read_json s.extended_features,
  )

  load_rows-to_row :
      (states : List (NetworkState F J)) (h : Heap F J)
      → (h' : Heap F J) × (rs : List Ref) × (load_rows codec sql (map (to_row codec sql) states) h
          ≡ some (h', rs))
        × (map h'.cell rs ≡ states)
        × ((r : Ref) → r < h.next → h'.cell r ≡ h.cell r)
  unfolding load_rows
  load_rows-to_row [] h = (h, [], refl, refl, λ r below. refl)
  load_rows-to_row (s ∷ states) h =
      let (h', rs, loaded, cells, kept) = load_rows-to_row states (alloc s h) in
      (
        h',
        h.next ∷ rs,
        rw (of_row-to_row s, loaded, load_rows),
        ap₂ ◌∷◌ (kept h.next (alloc-next s h) ∙ alloc-cell s h) cells,
        λ r below. kept r (omega (arith, alloc-next s h)) ∙ alloc-below s h r below,
      )

  remember_all-buffer :
      (h : Heap F J) (rs : List Ref) (s : StateStore) (history : List Ref)
      → s.buffer ≡ take_last s.capacity history
      → let s' = remember_all codec sql h rs s in
        (s'.buffer ≡ take_last s.capacity (history ++ rs)) × (s'.unflushed ≡ s.unflushed)
  unfolding remember_all
  remember_all-buffer h [] s history e = (rw append-nil e, refl)
  remember_all-buffer h (r ∷ rs) s history e =
      let pushed = ap (push s.capacity r) e ∙ push-take_last s.capacity r history in
      let (buffer, queue) = remember_all-buffer h rs _ (history ++ r ∷ []) pushed in
      (buffer ∙ ap (take_last s.capacity) (append_assoc history (r ∷ []) rs), queue)

  load_from_sqlite-loaded :
      (limit : ℕ) (h h' : Heap F J) (s : StateStore) (db : D) (rs : List Ref)
      → str_eq s.db_path "" ≡ false
      → load_rows codec sql (latest codec sql limit db) h ≡ some (h', rs)
      → load_from_sqlite codec sql true limit h s db
        ≡ (h', remember_all codec sql h' rs s, returned (length rs))
  unfolding load_from_sqlite
  load_from_sqlite-loaded limit h h' s db rs path loaded = rw (path, loaded, load_from_sqlite)

  latest-states :
      (limit : ℕ) (db : D) (states : List (NetworkState F J))
      → sql.rows db ≡ map (to_row codec sql) states
      → latest codec sql limit db ≡ map (to_row codec sql) (take_last limit states)
  unfolding latest
  latest-states limit db states written =
      take-reverse limit (sql.rows db)
      ∙ ap (take_last limit) written
      ∙ sym (map-take_last (to_row codec sql) limit states)

  -- Into a new store of capacity `c` with a database path whose file exists, from a database
  -- whose rows were written from the states `states`, `load_from_sqlite` with a limit brings back
  -- the last states up to that number, equal to what was written in every field, label included;
  -- the buffer holds the last `c` of them in their order, none is queued to be written again, and
  -- the count is returned. The text forms are read back as what was written.
  pub load_from_sqlite-states :
      (c limit : ℕ) (db_path : String) (h : Heap F J) (db : D) (states : List (NetworkState F J))
      → str_eq db_path "" ≡ false
      → sql.rows db ≡ map (to_row codec sql) states
      → let (h', s', outcome) = load_from_sqlite codec sql true limit h (init c db_path) db in
        (outcome ≡ returned (min limit (length states)))
        × (map h'.cell s'.buffer ≡ take_last c (take_last limit states))
        × (s'.unflushed ≡ [])
  unfolding init
  load_from_sqlite-states c limit db_path h db states path written =
      let newest = take_last limit states in
      let (h', rs, loaded, cells, _) = load_rows-to_row newest h in
      let found = ap (λ l. load_rows codec sql l h) (latest-states limit db states written) in
      let (buffer, queue) =
        remember_all-buffer h' rs (init c db_path) []
          (sym (drop_of_length-le _ [] (omega arith))) in
      rw (load_from_sqlite-loaded limit h h' (init c db_path) db rs path (found ∙ loaded)) (
        ap returned (
            sym (length-map h'.cell rs)
            ∙ ap length cells
            ∙ omega (arith, length-drop (length states - limit) states)),
        ap (map h'.cell) buffer ∙ map-take_last h'.cell c rs ∙ ap (take_last c) cells,
        queue,
      )
