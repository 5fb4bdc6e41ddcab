-- ===== src/Features/Entries.antt =====
-- Sorting, filtering and grouping the entries, in pipeline/feature_extraction/feature_extractor.py.
use turbo_sh.Common.{
  ℕ, ◌≤◌, ◌≡◌, inl, inr, List, [], ◌∷◌, map, Bool, true, String, leb, leb→le, lt_of_not-leb, All,
  All-append, arith, Bool-cases, length, filter, str_eq,
}
use turbo_sh.Features.{group_append, sort_by, insert_by}
use turbo_sh.Features.Windows.{IsRising}

insert_by-IsRising {ℓ} :
    {A : Type ℓ}
    → (key : A → ℕ) → (lo : ℕ) → (x : A) → (xs : List A) → lo ≤ key x
    → IsRising lo (map key xs)
    → IsRising lo (map key (insert_by key x xs))
unfolding insert_by
insert_by-IsRising key lo x [] h r = (h, tt)
insert_by-IsRising key lo x (y ∷ ys) h r = elim (Bool-cases (leb (key x) (key y))) [
  | inl le ↦ rw le (h, (leb→le _ _ le, r.1))
  | inr gt ↦
      rw gt (r.0, insert_by-IsRising key (key y) x ys (omega (arith, lt_of_not-leb _ _ gt)) r.1)
]

pub sort_by-IsRising {ℓ} :
    {A : Type ℓ} → (key : A → ℕ) → (xs : List A) → IsRising 0 (map key (sort_by key xs))
unfolding sort_by
sort_by-IsRising key [] = tt
sort_by-IsRising key (x ∷ xs) =
    insert_by-IsRising key 0 x (sort_by key xs) (omega arith) (sort_by-IsRising key xs)

-- A longer window holds at least as many.
pub filter-le {ℓ} :
    {A : Type ℓ}
    → (p q : A → Bool) → ((x : A) → p x ≡ true → q x ≡ true)
    → (xs : List A) → length (filter p xs) ≤ length (filter q xs)
filter-le p q h [] = omega arith
filter-le p q h (x ∷ xs) = ground (arith, h x, filter-le p q h xs)

insert_by-All {ℓ κ} :
    {A : Type ℓ} (P : A → Type κ) (key : A → ℕ) (x : A) (xs : List A)
    → P x
    → All P xs
    → All P (insert_by key x xs)
unfolding insert_by
insert_by-All P key x [] here all = (here, tt)
insert_by-All P key x (y ∷ ys) here (p, all) = elim (Bool-cases (leb (key x) (key y))) [
  | inl le ↦ rw le (here, (p, all))
  | inr gt ↦ rw gt (p, insert_by-All P key x ys here all)
]

pub sort_by-All {ℓ κ} :
    {A : Type ℓ} (P : A → Type κ) (key : A → ℕ) (xs : List A) → All P xs → All P (sort_by key xs)
unfolding sort_by
sort_by-All P key [] all = tt
sort_by-All P key (x ∷ xs) (here, all) =
    insert_by-All P key x (sort_by key xs) here (sort_by-All P key xs all)

pub All-filter {ℓ κ} :
    {A B : Type ℓ} (P : B → Type κ) (g : A → B) (p : A → Bool) (xs : List A)
    → All (λ x. P (g x)) xs
    → All P (map g (filter p xs))
All-filter P g p [] all = tt
All-filter P g p (x ∷ xs) (here, all) = elim (Bool-cases (p x)) [
  | inl holds ↦ rw holds (here, All-filter P g p xs all)
  | inr fails ↦ rw fails (All-filter P g p xs all)
]

pub group_append-All {ℓ κ} :
    {A : Type ℓ} (P : A → Type κ) (k : String) (x : A) (groups : List (String × List A))
    → P x
    → All (λ g. All P g.1) groups
    → All (λ g. All P g.1) (group_append k x groups)
unfolding group_append
group_append-All P k x [] here all = ((here, tt), tt)
group_append-All P k x ((j, xs) ∷ groups) here (first, all) = elim (Bool-cases (str_eq j k)) [
  | inl same ↦ rw same (All-append P xs (x ∷ []) first (here, tt), all)
  | inr another ↦ rw another (first, group_append-All P k x groups here all)
]
