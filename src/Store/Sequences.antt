-- ===== src/Store/Sequences.antt =====
-- The sliding windows of `get_all_sequences` in forecasting/state_store.py.
use turbo_sh.Common.{
  ℕ, zero, suc, ◌+◌, ◌-◌, ◌≤◌, ◌≡◌, ap, ◌∙◌, String, List, [], ◌∷◌, none, some, leb, if◌then◌else◌,
  length, take, drop, get_elem?, All, All-append, arith, length-take, length-drop, Bool-cases, inl,
  inr, ltb,
}
use turbo_sh.Store.{Ref, Heap, ip_of, IpIndex, windows_from, sequences, get_all_sequences, init}
use turbo_sh.Store.Index.{IsGrouped}
use turbo_sh.Store.History.{append_all, append_all-Tracks, init-Tracks}

windows_from-get {ℓ} :
    {A : Type ℓ} (n i w : ℕ) (xs : List A) (j : ℕ)
    → get_elem? (windows_from n i w xs) j
      ≡ (if leb (suc j) n then some (take w (drop (i + j) xs)) else none)
unfolding windows_from
windows_from-get zero i w xs j = ground arith
windows_from-get (suc n) i w xs zero =
    ap (λ k. some (take w (drop k xs))) {x = i} {y = i + 0} (omega arith) ∙ ground arith
windows_from-get (suc n) i w xs (suc j) =
    let place : suc i + j ≡ i + suc j = omega arith in
    let test : leb (suc j) n ≡ leb (suc (suc j)) (suc n) = ground arith in
    windows_from-get n (suc i) w xs j ∙ λ t.
    if test t then some (take w (drop (place t) xs)) else none

-- The windows of a list are its sublists of `w` consecutive entries, each once, from each place
-- from which `w` entries are left.
pub windows-get {ℓ} :
    {A : Type ℓ} (w : ℕ) (xs : List A) (j : ℕ)
    → get_elem? (windows_from (length xs + 1 - w) 0 w xs) j
      ≡ (if leb (j + w) (length xs) then some (take w (drop j xs)) else none)
windows-get w xs j =
    let place : 0 + j ≡ j = omega arith in
    let test : leb (suc j) (length xs + 1 - w) ≡ leb (j + w) (length xs) = ground arith in
    windows_from-get (length xs + 1 - w) 0 w xs j ∙ λ t.
    if test t then some (take w (drop (place t) xs)) else none

take-All {ℓ κ} : {A : Type ℓ} (P : A → Type κ) (n : ℕ) (xs : List A) → All P xs → All P (take n xs)
take-All P zero xs a = tt
take-All P (suc n) [] a = tt
take-All P (suc n) (x ∷ xs) a = (a.0, take-All P n xs a.1)

drop-All {ℓ κ} : {A : Type ℓ} (P : A → Type κ) (n : ℕ) (xs : List A) → All P xs → All P (drop n xs)
drop-All P zero xs a = a
drop-All P (suc n) [] a = tt
drop-All P (suc n) (x ∷ xs) a = drop-All P n xs a.1

-- `w` states, all of one IP.
abbrev pub IsSequence : (Ref → String) → ℕ → List Ref → Type 0
IsSequence ip w states = (length states ≡ w) × ((k : String) × All (λ r. ip r ≡ k) states)

module _ (ip : Ref → String) (w : ℕ) where
  windows_from-IsSequence :
      (n i : ℕ) (k : String) (states : List Ref)
      → i + n ≤ length states + 1 - w
      → All (λ r. ip r ≡ k) states
      → All (IsSequence ip w) (windows_from n i w states)
  unfolding windows_from
  windows_from-IsSequence zero i k states h a = tt
  windows_from-IsSequence (suc n) i k states h a = (
    (
      omega (arith, length-take w (drop i states), length-drop i states),
      (k, take-All (λ r. ip r ≡ k) w (drop i states) (drop-All (λ r. ip r ≡ k) i states a)),
    ),
    windows_from-IsSequence n (suc i) k states (omega arith) a,
  )

  sequences-IsSequence :
      (min_length : ℕ) (m : IpIndex)
      → IsGrouped ip m
      → All (IsSequence ip w) (sequences w min_length m)
  unfolding sequences
  sequences-IsSequence min_length [] g = tt
  sequences-IsSequence min_length ((k, states) ∷ m) g =
      let rest = sequences-IsSequence min_length m g.1 in
      elim (Bool-cases (ltb (length states) min_length)) [
        | inl short ↦ rw short rest
        | inr long ↦ rw long (
            All-append (IsSequence ip w) _ _
              (windows_from-IsSequence (length states + 1 - w) 0 k states (omega arith) g.0) rest)
      ]

-- Every sequence that `get_all_sequences` returns has exactly `window_size` states, and they are
-- all of one IP, for whatever minimum length; the store is one that was filled by `append`.
pub get_all_sequences-IsSequence {ℓ} :
    {F J : Type ℓ} (h : Heap F J) (window_size min_length capacity : ℕ) (db_path : String)
    (rs : List Ref)
    → All
        (IsSequence (ip_of h) window_size)
        (get_all_sequences window_size min_length (append_all h rs (init capacity db_path)))
unfolding get_all_sequences
get_all_sequences-IsSequence h window_size min_length capacity db_path rs =
    let s = append_all h rs (init capacity db_path) in
    sequences-IsSequence (ip_of h) window_size min_length s.ip_index
      (append_all-Tracks h rs (init capacity db_path) [] (init-Tracks h capacity db_path)).grouped
