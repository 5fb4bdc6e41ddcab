-- ===== src/Store/Index.antt =====
-- The index by IP of forecasting/state_store.py.
use turbo_sh.Common.{
  ℕ, ◌≡◌, refl, sym, ap, zero, suc, All, All-append, drop, length, ltb, Bool-cases, inl, inr, ◌∙◌,
  String, List, [], ◌∷◌, ◌++◌, true, false, if◌then◌else◌, str_eq, eq_iff, arith, filter, take_last,
}
use turbo_sh.Store.{Ref, IpIndex, push, index_maxlen, index_append, index_get}
use turbo_sh.Store.Deque.{push-take_last}

index_get-index_append :
    (k j : String) (r : Ref) (m : IpIndex)
    → index_get j (index_append k r m)
      ≡ (if str_eq k j then push index_maxlen r (index_get k m) else index_get j m)
unfolding index_get index_append
index_get-index_append k j r [] = refl
index_get-index_append k j r ((i, d) ∷ m) =
    ground (arith, eq_iff k j, eq_iff i k, eq_iff i j, index_get-index_append k j r m)

-- The states of one IP, among the states `rs`.
abbrev pub of_ip : (Ref → String) → String → List Ref → List Ref
of_ip ip k rs = filter (λ r. str_eq (ip r) k) rs

of_ip-append_same :
    (ip : Ref → String) (k : String) (rs : List Ref) (r : Ref)
    → str_eq (ip r) k ≡ true
    → of_ip ip k (rs ++ r ∷ []) ≡ of_ip ip k rs ++ r ∷ []
of_ip-append_same ip k [] r h = rw h
of_ip-append_same ip k (x ∷ rs) r h = ground (arith, of_ip-append_same ip k rs r h)

of_ip-append_other :
    (ip : Ref → String) (k : String) (rs : List Ref) (r : Ref)
    → str_eq (ip r) k ≡ false
    → of_ip ip k (rs ++ r ∷ []) ≡ of_ip ip k rs
of_ip-append_other ip k [] r h = rw h
of_ip-append_other ip k (x ∷ rs) r h = ground (arith, of_ip-append_other ip k rs r h)

-- If the index holds the last 200 states of each IP, it does so after an update.
pub index_append-take_last :
    (ip : Ref → String) (r : Ref) (m : IpIndex) (history : List Ref) (k : String)
    → ((j : String) → index_get j m ≡ take_last index_maxlen (of_ip ip j history))
    → index_get k (index_append (ip r) r m)
      ≡ take_last index_maxlen (of_ip ip k (history ++ r ∷ []))
index_append-take_last ip r m history k h =
    let mine = of_ip ip k history in
    index_get-index_append (ip r) k r m ∙ elim (Bool-cases (str_eq (ip r) k)) [
      | inl same ↦
          let here : ip r ≡ k = (eq_iff (ip r) k).0 same in
          rw same (
            ap (push index_maxlen r) (ap (λ j. index_get j m) here ∙ h k)
            ∙ push-take_last index_maxlen r mine
            ∙ ap (take_last index_maxlen) (sym (of_ip-append_same ip k history r same)))
      | inr other ↦
          rw other
            (h k ∙ ap (take_last index_maxlen) (sym (of_ip-append_other ip k history r other)))
    ]

-- The states under each key come from that IP.
abbrev pub IsGrouped : (Ref → String) → IpIndex → Type 0
IsGrouped ip [] = Unit
IsGrouped ip ((k, d) ∷ m) = All (λ r. ip r ≡ k) d × IsGrouped ip m

drop-All {ℓ κ} : {A : Type ℓ} (P : A → Type κ) (n : ℕ) (xs : List A) → All P xs → All P (drop n xs)
drop-All P zero xs h = h
drop-All P (suc n) [] h = h
drop-All P (suc n) (x ∷ xs) h = drop-All P n xs h.1

push-All {ℓ κ} :
    {A : Type ℓ} (P : A → Type κ) (n : ℕ) (x : A) (xs : List A)
    → All P xs
    → P x
    → All P (push n x xs)
unfolding push
push-All P n x xs h p =
    let all = All-append P xs (x ∷ []) h (p, tt) in
    elim (Bool-cases (ltb n (length (xs ++ x ∷ [])))) [
      | inl full ↦ rw full (drop-All P 1 (xs ++ x ∷ []) all)
      | inr room ↦ rw room all
    ]

pub index_append-IsGrouped :
    (ip : Ref → String) (r : Ref) (m : IpIndex)
    → IsGrouped ip m
    → IsGrouped ip (index_append (ip r) r m)
unfolding index_append
index_append-IsGrouped ip r [] g = (push-All (λ x. ip x ≡ ip r) index_maxlen r [] tt refl, tt)
index_append-IsGrouped ip r ((k, d) ∷ m) g = elim (Bool-cases (str_eq k (ip r))) [
  | inl same ↦
      rw same (push-All (λ x. ip x ≡ k) index_maxlen r d g.0 (sym ((eq_iff k (ip r)).0 same)), g.1)
  | inr other ↦ rw other (g.0, index_append-IsGrouped ip r m g.1)
]
