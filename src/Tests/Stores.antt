-- ===== src/Tests/Stores.antt =====
-- A store of capacity two.
use turbo_sh.Common.{
  ℕ, suc, pos, ◌≡◌, refl, List, [], ◌∷◌, String, some, none, take_last, filter, All,
}
use turbo_sh.Store.{
  Ref, StateStore, init, append, get_ip_history, get_time_range, get_all_sequences, index_maxlen,
  ip_of, push, index_append,
}
use turbo_sh.Store.Index.{of_ip}
use turbo_sh.Store.History.{append_all, append_all-history}
use turbo_sh.Store.Ranges.{within, get_time_range-aware, get_time_range-naive}
use turbo_sh.Store.Sequences.{IsSequence, get_all_sequences-IsSequence}
use turbo_sh.Tests.{heap, utc, naive}

abbrev filled : StateStore
filled = append heap 2 (append heap 1 (append heap 0 (init 2 "")))

filled-buffer : filled.buffer ≡ 1 ∷ 2 ∷ []
unfolding append init push index_append
filled-buffer = refl

append_all-history_example :
    let s = append_all heap (0 ∷ 1 ∷ 2 ∷ []) (init 2 "") in
    (s.buffer ≡ take_last 2 (0 ∷ 1 ∷ 2 ∷ []))
    × ((k : String) (n : ℕ)
        → get_ip_history k (pos (suc n)) s
          ≡ take_last (suc n) (take_last index_maxlen (of_ip (ip_of heap) k (0 ∷ 1 ∷ 2 ∷ []))))
append_all-history_example = append_all-history heap 2 "" (0 ∷ 1 ∷ 2 ∷ [])

get_time_range-aware_example :
    get_time_range heap (utc 20) (utc 25) filled ≡ some (filter (within heap 20 25) filled.buffer)
get_time_range-aware_example = get_time_range-aware heap (utc 20) (utc 25) filled refl refl

get_time_range-naive_example : get_time_range heap (naive 20) (utc 25) filled ≡ none
get_time_range-naive_example =
    get_time_range-naive heap (naive 20) (utc 25) filled 2 (1 ∷ []) [] filled-buffer refl refl

get_all_sequences-IsSequence_example :
    All
      (IsSequence (ip_of heap) 2)
      (get_all_sequences 2 2 (append_all heap (0 ∷ 1 ∷ 2 ∷ 3 ∷ []) (init 2 "")))
get_all_sequences-IsSequence_example =
    get_all_sequences-IsSequence heap 2 2 2 "" (0 ∷ 1 ∷ 2 ∷ 3 ∷ [])

abbrev places : List Ref
places = 7 ∷ 8 ∷ 9 ∷ []
