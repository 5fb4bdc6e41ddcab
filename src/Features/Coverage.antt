-- ===== src/Features/Coverage.antt =====
-- Windows and requests of an IP in pipeline/feature_extraction/feature_extractor.py.
use turbo_sh.Common.{
  ℕ, zero, suc, ◌+◌, ◌-◌, ◌≤◌, ◌<◌, ◌≡◌, refl, sym, ◌∙◌, inl, inr, List, [], ◌∷◌, true, false, some,
  leb, leb→le, lt_of_not-leb, All, arith, Bool-cases,
}
use turbo_sh.Features.{in_window, has_reqs, next_end, eval_times, last_time, window_eval_times}
use turbo_sh.Features.Windows.{In, IsRising, has_window, has_reqs_of_In, next_end-lt, next_end-le}

-- The ends of windows that hold requests, among which every time from `from` on has its window.
abbrev pub IsCover : ℕ → List ℕ → (ℕ → Type 0) → List ℕ → Type 0
IsCover size times Due ends =
    All (λ w_end. has_reqs size w_end times ≡ true) ends
    × ((t : ℕ) → In t times → Due t → has_window size t ends ≡ true)

-- A time that is due at `c` lies in the window that ends there, or is due at the next end.
covered_by_next :
    (size step t_last lo c : ℕ) (times ends : List ℕ)
    → step ≤ size
    → IsRising lo times
    → ((t : ℕ)
        → In t times
        → (next_end size step times c ≤ t + step) × (t ≤ t_last)
        → has_window size t ends ≡ true)
    → (t : ℕ) → In t times
    → (c ≤ t + step) × (t ≤ t_last)
    → has_window size t (c ∷ ends) ≡ true
covered_by_next size step t_last lo c times ends w r covered t i due =
    elim (Bool-cases (in_window size c t)) [
      | inl now ↦ rw now
      | inr not_yet ↦
          rw not_yet (covered t i (next_end-le size step c lo t times r i (ground arith), due.1))
    ]

not_covered_here :
    (size c t : ℕ) (times ends : List ℕ)
    → In t times
    → has_reqs size c times ≡ false
    → has_window size t (c ∷ ends) ≡ true
    → has_window size t ends ≡ true
not_covered_here size c t times ends i idle h = elim (Bool-cases (in_window size c t)) [
  | inl now ↦ let clash : true ≡ false = sym (has_reqs_of_In size c t times i now) ∙ idle in cc
  | inr not_yet ↦ rw not_yet at h
]

eval_times-IsCover :
    (size step t_last lo : ℕ) (times : List ℕ)
    → 0 < step
    → step ≤ size
    → IsRising lo times
    → (fuel c : ℕ) → t_last + step + 1 - c < fuel
    → (ends : List ℕ) × (eval_times size step t_last times fuel c ≡ some ends)
      × IsCover size times (λ t. (c ≤ t + step) × (t ≤ t_last)) ends
unfolding eval_times
eval_times-IsCover size step t_last lo times s w r zero c h = absurd (omega arith)
eval_times-IsCover size step t_last lo times s w r (suc fuel) c h =
    let forward = next_end-lt size step c times s in
    elim (Bool-cases (leb c (t_last + step))) [
      | inr done ↦ ([], rw done, (tt, λ t i due. absurd (omega (arith, lt_of_not-leb _ _ done))))
      | inl more ↦
          let (ends, ran, (full, covered)) =
            eval_times-IsCover size step t_last lo times s w r fuel (next_end size step times c)
              (omega (arith, leb→le _ _ more)) in
          elim (Bool-cases (has_reqs size c times)) [
            | inl held ↦ (
              c ∷ ends,
              rw (more, ran, held),
              ((held, full), covered_by_next size step t_last lo c times ends w r covered),
            )
            | inr idle ↦ (
              ends,
              rw (more, ran, idle),
              (
                full,
                λ t i due.
                    not_covered_here size c t times ends i idle
                      (covered_by_next size step t_last lo c times ends w r covered t i due),
              ),
            )
          ]
    ]

last_time-bounds :
    (t : ℕ) (others : List ℕ)
    → IsRising t others
    → (t ≤ last_time t others)
      × ((x : ℕ) → In x (t ∷ others) → (t ≤ x) × (x ≤ last_time t others))
      × In (last_time t others) (t ∷ others)
last_time-bounds t [] r =
    (omega arith, λ x i. elim i [ inl e ↦ omega arith | inr b ↦ absurd b ], inl refl)
last_time-bounds t (x ∷ others) r =
    let (up, all, last) = last_time-bounds x others r.1 in
    (
      omega arith,
      λ y i. elim i [
        | inl e ↦ omega arith
        | inr there ↦ let (lo, hi) = all y there in (omega arith, hi)
      ],
      inr last,
    )

-- For request times that rise and a step that is positive and not longer than the window, the
-- window ends of an IP always come out. Each of the windows holds a request, and every request
-- lies in one of them: neither the steps nor the jump over an idle gap leave a request out.
pub window_eval_times-IsCover :
    (size step t_first : ℕ) (others : List ℕ)
    → 0 < step
    → step ≤ size
    → IsRising t_first others
    → (ends : List ℕ) × (window_eval_times size step t_first others ≡ some ends)
      × IsCover size (t_first ∷ others) (λ t. Unit {0}) ends
unfolding window_eval_times
window_eval_times-IsCover size step t_first others s w r =
    let t_last = last_time t_first others in
    let times = t_first ∷ others in
    let (up, all, last) = last_time-bounds t_first others r in
    elim (Bool-cases (leb (t_last - t_first) step)) [
      | inl short ↦ (
        t_last ∷ [],
        rw short,
        (
          (has_reqs_of_In size t_last t_last times last (ground arith), tt),
          λ t i due. let (lo, hi) = all t i in ground arith,
        ),
      )
      | inr long ↦
          let (ends, ran, (full, covered)) =
            eval_times-IsCover size step t_last t_first times s w (omega arith, r) (t_last + 2)
              (t_first + step) (omega arith) in
          (
            ends,
            rw (long, ran),
            (full, λ t i due. let (lo, hi) = all t i in covered t i (omega arith, hi)),
          )
    ]
