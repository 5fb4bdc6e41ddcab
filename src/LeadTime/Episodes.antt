-- ===== src/LeadTime/Episodes.antt =====
-- The episodes of `detect_episodes` in forecasting/evaluation/lead_time.py, one by one.
use turbo_sh.Common.{
  ℕ, suc, ◌+◌, ◌-◌, ◌≤◌, ◌<◌, ◌≡◌, refl, ap, sym, ◌∙◌, ◌⊎◌, inl, inr, List, [], ◌∷◌, true, false,
  none, some, ℤ, if◌then◌else◌, ◌≤ℤ◌, leb_ℤ, ltb_ℤ, get_elem?, All, arith, Bool-cases,
}
use mathlib.Core.Path.{subst}
use native.Mathlib.Decide.{dec_lt}
use turbo_sh.LeadTime.{
  StageArray, t1, LeadTimeConfig, AttackEpisode, Scan, outside, inside, episode, detect,
  detect_episodes,
}
use turbo_sh.LeadTime.Rounds.{
  detect-begin, detect-pass, detect-go_on, detect-close, IsRest, IsRest-suc, here, end,
}

module _ (stages : List ℤ) (threshold : ℤ) where
  -- There is a stage at `k`, below the threshold.
  abbrev pub BelowAt : ℕ → Type 0
  BelowAt k = (x : ℤ) × (get_elem? stages k ≡ some x) × (leb_ℤ threshold x ≡ false)

  -- There is a stage at `k`, at or above the threshold and not above `top`.
  abbrev pub AttackAt : ℤ → ℕ → Type 0
  AttackAt top k = (x : ℤ) × (get_elem? stages k ≡ some x) × (leb_ℤ threshold x ≡ true) × (x ≤ℤ top)

  -- A maximal run: nothing, or a stage below the threshold, stands on either side of it. Its peak
  -- is a place of the run at which the stage is greatest.
  pub record IsEpisode (e : AttackEpisode) : Type 0 where
    pub onset-le : e.onset_idx ≤ e.peak_idx
    pub peak-le : e.peak_idx ≤ e.resolution_idx
    pub at_peak : get_elem? stages e.peak_idx ≡ some e.peak_stage
    pub run : (k : ℕ) → e.onset_idx ≤ k → k ≤ e.resolution_idx → AttackAt e.peak_stage k
    pub before : (e.onset_idx ≡ 0) ⊎ BelowAt (e.onset_idx - 1)
    pub after : (get_elem? stages (e.resolution_idx + 1) ≡ none) ⊎ BelowAt (e.resolution_idx + 1)

  -- What the loops know when they come to `i`.
  abbrev Known : ℕ → Scan → Type 0
  Known i outside = (i ≡ 0) ⊎ BelowAt (i - 1)
  Known i (inside onset peak stage) =
      (onset ≤ peak)
      × (peak < i)
      × (get_elem? stages peak ≡ some stage)
      × ((k : ℕ) → onset ≤ k → k < i → AttackAt stage k)
      × ((onset ≡ 0) ⊎ BelowAt (onset - 1))

  begin_run :
      (i : ℕ) (x : ℤ)
      → get_elem? stages i ≡ some x
      → leb_ℤ threshold x ≡ true
      → Known i outside
      → Known (suc i) (inside i i x)
  begin_run i x at attack known = (
    omega arith,
    omega arith,
    at,
    λ k lo hi.
        let e : k ≡ i = omega arith in (x, ap (get_elem? stages) e ∙ at, attack, omega arith),
    known,
  )

  pass :
      (i : ℕ) (x : ℤ)
      → get_elem? stages i ≡ some x
      → leb_ℤ threshold x ≡ false
      → BelowAt (suc i - 1)
  pass i x at below = (x, ap (get_elem? stages) (omega arith) ∙ at, below)

  raise_top : (k : ℕ) (low top : ℤ) → low ≤ℤ top → AttackAt low k → AttackAt top k
  raise_top k low top h (x, at, attack, le) = (x, at, attack, omega arith)

  go_on :
      (i onset peak : ℕ) (stage x : ℤ)
      → get_elem? stages i ≡ some x
      → leb_ℤ threshold x ≡ true
      → Known i (inside onset peak stage)
      → Known (suc i) (if ltb_ℤ stage x then inside onset i x else inside onset peak stage)
  go_on i onset peak stage x at attack (lo, hi, at_peak, run, before) =
      elim (Bool-cases (ltb_ℤ stage x)) [
        | inl higher ↦ rw higher (
          omega arith,
          omega arith,
          at,
          λ k from to. elim (dec_lt k i) [
            | yes earlier ↦ raise_top k stage x (ground arith) (run k from earlier)
            | no now ↦
                let e : k ≡ i = omega arith in
                (x, ap (get_elem? stages) e ∙ at, attack, omega arith)
          ],
          before,
        )
        | inr lower ↦ rw lower (
          lo,
          omega arith,
          at_peak,
          λ k from to. elim (dec_lt k i) [
            | yes earlier ↦ run k from earlier
            | no now ↦
                let e : k ≡ i = omega arith in
                (x, ap (get_elem? stages) e ∙ at, attack, ground arith)
          ],
          before,
        )
      ]

  close :
      (i onset peak : ℕ) (stage : ℤ)
      → Known i (inside onset peak stage)
      → (get_elem? stages i ≡ none) ⊎ BelowAt i
      → IsEpisode (episode onset peak (i - 1) stage)
  close i onset peak stage (lo, hi, at_peak, run, before) after =
      let next : i ≡ i - 1 + 1 = omega arith in
      record {
        onset-le = lo;
        peak-le = omega arith;
        at_peak = at_peak;
        run = λ k from to. run k from (omega arith);
        before = before;
        after = subst (λ n. (get_elem? stages n ≡ none) ⊎ BelowAt n) next after;
      }

  detect-IsEpisode :
      (i : ℕ) (scan : Scan) (rest : List ℤ)
      → IsRest stages i rest
      → Known i scan
      → All IsEpisode (detect threshold i scan rest)
  unfolding detect
  detect-IsEpisode i outside [] r known = tt
  detect-IsEpisode i outside (x ∷ rest) r known =
      let at = here stages i x rest r in
      let r' = IsRest-suc stages i x rest r in
      elim (Bool-cases (leb_ℤ threshold x)) [
        | inl attack ↦
            subst (All IsEpisode) (sym (detect-begin threshold i x rest attack))
              (detect-IsEpisode (suc i) (inside i i x) rest r' (begin_run i x at attack known))
        | inr below ↦
            subst (All IsEpisode) (sym (detect-pass threshold i x rest below))
              (detect-IsEpisode (suc i) outside rest r' (inr (pass i x at below)))
      ]
  detect-IsEpisode i (inside onset peak stage) [] r known =
      (close i onset peak stage known (inl (end stages i r)), tt)
  detect-IsEpisode i (inside onset peak stage) (x ∷ rest) r known =
      let at = here stages i x rest r in
      let r' = IsRest-suc stages i x rest r in
      elim (Bool-cases (leb_ℤ threshold x)) [
        | inl attack ↦
            subst (All IsEpisode) (sym (detect-go_on threshold i onset peak stage x rest attack))
              (detect-IsEpisode (suc i) _ rest r' (go_on i onset peak stage x at attack known))
        | inr below ↦
            subst (All IsEpisode) (sym (detect-close threshold i onset peak stage x rest below)) (
              close i onset peak stage known (inr (x, at, below)),
              detect-IsEpisode (suc i) outside rest r' (inr (pass i x at below)),
            )
      ]

module _ {ℓ} {F : Type ℓ} (config : LeadTimeConfig F) (true_stages : StageArray) where
  -- Every episode that `detect_episodes` reports is a maximal run of stages at or above the
  -- threshold in the first column, with its greatest stage at the peak index.
  pub detect_episodes-IsEpisode :
      All (IsEpisode (t1 true_stages) config.surge_threshold) (detect_episodes config true_stages)
  unfolding detect_episodes
  detect_episodes-IsEpisode =
      detect-IsEpisode (t1 true_stages) config.surge_threshold 0 outside (t1 true_stages)
        (λ j. ap (get_elem? (t1 true_stages)) (omega arith)) (inl refl)
