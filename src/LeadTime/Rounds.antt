-- ===== src/LeadTime/Rounds.antt =====
-- One round of the loops of `detect_episodes` in forecasting/evaluation/lead_time.py.
use turbo_sh.Common.{
  ℕ, suc, ◌+◌, ◌-◌, ◌≡◌, ap, sym, ◌∙◌, List, [], ◌∷◌, true, false, none, some, ℤ, if◌then◌else◌,
  leb_ℤ, ltb_ℤ, get_elem?, arith,
}
use turbo_sh.LeadTime.{outside, inside, episode, detect}

-- One round of the loops, by the test of the stage.
module _ (threshold : ℤ) (i : ℕ) where
  pub detect-begin :
      (x : ℤ) (rest : List ℤ)
      → leb_ℤ threshold x ≡ true
      → detect threshold i outside (x ∷ rest) ≡ detect threshold (suc i) (inside i i x) rest
  unfolding detect
  detect-begin x rest h = rw (h, detect)

  pub detect-pass :
      (x : ℤ) (rest : List ℤ)
      → leb_ℤ threshold x ≡ false
      → detect threshold i outside (x ∷ rest) ≡ detect threshold (suc i) outside rest
  unfolding detect
  detect-pass x rest h = rw (h, detect)

  module _ (onset peak : ℕ) (stage x : ℤ) (rest : List ℤ) where
    pub detect-go_on :
        leb_ℤ threshold x ≡ true
        → detect threshold i (inside onset peak stage) (x ∷ rest)
          ≡ detect threshold
              (suc i)
              (if ltb_ℤ stage x then inside onset i x else inside onset peak stage)
              rest
    unfolding detect
    detect-go_on h = rw (h, detect)

    pub detect-close :
        leb_ℤ threshold x ≡ false
        → detect threshold i (inside onset peak stage) (x ∷ rest)
          ≡ episode onset peak (i - 1) stage ∷ detect threshold (suc i) outside rest
    unfolding detect
    detect-close h = rw (h, detect)

module _ (stages : List ℤ) where
  -- `rest` is what is left of the stages from `i` on.
  abbrev pub IsRest : ℕ → List ℤ → Type 0
  IsRest i rest = (j : ℕ) → get_elem? rest j ≡ get_elem? stages (i + j)

  pub IsRest-suc : (i : ℕ) (x : ℤ) (rest : List ℤ) → IsRest i (x ∷ rest) → IsRest (suc i) rest
  IsRest-suc i x rest r j = r (suc j) ∙ ap (get_elem? stages) (omega arith)

  pub here : (i : ℕ) (x : ℤ) (rest : List ℤ) → IsRest i (x ∷ rest) → get_elem? stages i ≡ some x
  here i x rest r = ap (get_elem? stages) {x = i} {y = i + 0} (omega arith) ∙ sym (r 0)

  pub end : (i : ℕ) → IsRest i [] → get_elem? stages i ≡ none
  end i r = ap (get_elem? stages) {x = i} {y = i + 0} (omega arith) ∙ sym (r 0)
