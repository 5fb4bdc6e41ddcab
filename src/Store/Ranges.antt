-- ===== src/Store/Ranges.antt =====
-- `get_time_range` of forecasting/state_store.py.
use turbo_sh.Common.{
  ℕ, ◌≡◌, refl, ap, ◌∙◌, List, [], ◌∷◌, ◌++◌, Bool, true, false, ◌&&◌, none, some, leb, filter,
  arith,
}
use turbo_sh.NetworkState.{Datetime}
use turbo_sh.Store.{Ref, Heap, StateStore, collect_range, get_time_range}

module _ {ℓ} {F J : Type ℓ} (h : Heap F J) where
  -- The instant of a state, naive ones read as UTC.
  abbrev pub within : ℕ → ℕ → Ref → Bool
  within lo hi r = let t = (h.cell r).timestamp.micros in leb lo t && leb t hi

  collect-aware :
      (start end : Datetime) (rs : List Ref)
      → start.aware ≡ true
      → end.aware ≡ true
      → collect_range h start end rs ≡ some (filter (within start.micros end.micros) rs)
  unfolding collect_range
  collect-aware start end [] s e = refl
  collect-aware start end (r ∷ rs) s e = ground (arith, collect-aware start end rs s e)

  -- Between bounds that are aware of their time zone `get_time_range` never raises, and returns the
  -- buffered states from `start` to `end`, both included, in the order of the buffer; a naive
  -- timestamp counts as UTC.
  pub get_time_range-aware :
      (start end : Datetime) (s : StateStore)
      → start.aware ≡ true
      → end.aware ≡ true
      → get_time_range h start end s ≡ some (filter (within start.micros end.micros) s.buffer)
  unfolding get_time_range
  get_time_range-aware start end s = collect-aware start end s.buffer

  collect-naive :
      (start end : Datetime) (r : Ref) (before after : List Ref)
      → start.aware ≡ false
      → (h.cell r).timestamp.aware ≡ true
      → collect_range h start end (before ++ r ∷ after) ≡ none
  unfolding collect_range
  collect-naive start end r [] after s t = ground arith
  collect-naive start end r (b ∷ before) after s t =
      ground (arith, collect-naive start end r before after s t)

  -- With a naive `start`, one aware state anywhere in the buffer makes `get_time_range` raise a
  -- `TypeError`, whatever the range: only naive states are converted.
  pub get_time_range-naive :
      (start end : Datetime) (s : StateStore) (r : Ref) (before after : List Ref)
      → s.buffer ≡ before ++ r ∷ after
      → start.aware ≡ false
      → (h.cell r).timestamp.aware ≡ true
      → get_time_range h start end s ≡ none
  unfolding get_time_range
  get_time_range-naive start end s r before after e n t =
      ap (collect_range h start end) e ∙ collect-naive start end r before after n t
