-- ===== src/Store/History.antt =====
-- `StateStore` of forecasting/state_store.py beside an unbounded history of the appends.
use turbo_sh.Common.{
  ℕ, suc, pos, ◌≡◌, refl, sym, ap, ◌∙◌, drop_of_length-le, append-nil, String, List, [], ◌∷◌, ◌++◌,
  append_assoc, take_last, arith,
}
use turbo_sh.Store.{
  Ref, Heap, StateStore, ip_of, init, append, get_ip_history, index_get, index_maxlen,
}
use turbo_sh.Store.Deque.{push-take_last}
use turbo_sh.Store.Index.{of_ip, index_append-take_last, IsGrouped, index_append-IsGrouped}

-- The store `s` after the states `history` were appended, since a start with the queue `saved`
-- already written.
pub record Tracks {ℓ} {F J : Type ℓ} (h : Heap F J) (s : StateStore) (history : List Ref)
    : Type 0 where
  pub buffer : s.buffer ≡ take_last s.capacity history
  pub index :
      (k : String) → index_get k s.ip_index ≡ take_last index_maxlen (of_ip (ip_of h) k history)
  pub grouped : IsGrouped (ip_of h) s.ip_index

module _ {ℓ} {F J : Type ℓ} (h : Heap F J) where
  pub init-Tracks : (capacity : ℕ) (db_path : String) → Tracks h (init capacity db_path) []
  unfolding init index_get
  init-Tracks capacity db_path = record {
    buffer = sym (drop_of_length-le _ [] (omega arith));
    index = λ k. refl;
    grouped = tt;
  }

  pub append-Tracks :
      (r : Ref) (s : StateStore) (history : List Ref)
      → Tracks h s history
      → Tracks h (append h r s) (history ++ r ∷ [])
  unfolding append
  append-Tracks r s history t = record {
    buffer = rw t.buffer (push-take_last s.capacity r history);
    index = λ k. index_append-take_last (ip_of h) r s.ip_index history k t.index;
    grouped = index_append-IsGrouped (ip_of h) r s.ip_index t.grouped;
  }

  -- A sequence of appends.
  unfoldable pub append_all : List Ref → StateStore → StateStore
  append_all [] s = s
  append_all (r ∷ rs) s = append_all rs (append h r s)

  pub append_all-Tracks :
      (rs : List Ref) (s : StateStore) (history : List Ref)
      → Tracks h s history
      → Tracks h (append_all rs s) (history ++ rs)
  unfolding append_all
  append_all-Tracks [] s history t = rw append-nil t
  append_all-Tracks (r ∷ rs) s history t =
      rw (← append_assoc history (r ∷ []) rs)
        (append_all-Tracks rs (append h r s) (history ++ r ∷ []) (append-Tracks r s history t))

  append_all-capacity : (rs : List Ref) (s : StateStore) → (append_all rs s).capacity ≡ s.capacity
  unfolding append_all append
  append_all-capacity [] s = refl
  append_all-capacity (r ∷ rs) s = append_all-capacity rs (append h r s)

  -- Whatever is appended to a new store of capacity `c`, its buffer is the last `c` states in their
  -- order, and the history of an IP for a positive `n` is the last `n` of the last 200 states of
  -- that IP.
  pub append_all-history :
      (c : ℕ) (db_path : String) (rs : List Ref)
      → let s = append_all rs (init c db_path) in
        (s.buffer ≡ take_last c rs)
        × ((k : String) (n : ℕ)
            → get_ip_history k (pos (suc n)) s
              ≡ take_last (suc n) (take_last index_maxlen (of_ip (ip_of h) k rs)))
  unfolding get_ip_history init
  append_all-history c db_path rs =
      let t = append_all-Tracks rs (init c db_path) [] (init-Tracks c db_path) in
      (
        t.buffer ∙ ap (λ n. take_last n rs) (append_all-capacity rs (init c db_path)),
        λ k n. ap (take_last (suc n)) (t.index k),
      )
