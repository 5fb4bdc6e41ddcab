-- ===== src/LeadTime/Warnings.antt =====
-- The warnings before an onset, `evaluate_detections` in forecasting/evaluation/lead_time.py.
use turbo_sh.Common.{
  ℕ, ◌+◌, ◌-◌, ◌*◌, ◌≤◌, ◌<◌, max, ◌≡◌, refl, ◌⊎◌, Bool, true, false, Option, some, ℤ, pos, negsuc,
  ltb, arith, Float, List,
}
use turbo_sh.LeadTime.{
  search_begin, AttackEpisode, LeadTimeConfig, DetectionResult, predicted_attack, detect_early,
}
use turbo_sh.LeadTime.Searching.{search_back-Knows, IsWarning, Knows-begin, Found-le, Found-outcome}

-- What a detection says of the warnings before its episode's onset.
pub record IsEarliest (attack : ℕ → Bool) (min_consec step_seconds : ℕ) (d : DetectionResult)
    : Type 0 where
  pub lead-le : d.lead_time_steps ≤ 20
  pub seconds : d.lead_time_seconds ≡ d.lead_time_steps * step_seconds
  pub outcome :
      ((d.detected ≡ false) × (d.lead_time_steps ≡ 0) × (d.first_correct_idx ≡ negsuc 0))
      ⊎ ((d.detected ≡ true)
          × (d.lead_time_steps ≤ d.episode.onset_idx)
          × (d.first_correct_idx ≡ pos (d.episode.onset_idx - d.lead_time_steps))
          × IsWarning attack min_consec d.episode.onset_idx
              (d.episode.onset_idx - d.lead_time_steps))
  pub earliest :
      (idx : ℕ)
      → d.episode.onset_idx ≤ idx + 20
      → IsWarning attack min_consec d.episode.onset_idx idx
      → d.episode.onset_idx ≤ idx + d.lead_time_steps

module _ {ℓ} {F : Type ℓ} ⦃f : Float F⦄ (np_max : List F → Option F) where
  -- If the predictions of the twenty steps before an onset can be read, as `attack`, the search for
  -- the episode returns. Its lead time is at most 20 steps and is that of the earliest streak of
  -- the required length among those steps; if there is none the episode counts as not detected,
  -- with lead time 0 and index -1.
  pub detect_early-IsEarliest :
      (config : LeadTimeConfig F) (t1_pred : List ℤ) (proba : Option (List (List F)))
      (e : AttackEpisode) (attack : ℕ → Bool)
      → ((idx : ℕ)
          → e.onset_idx ≤ idx + 20
          → idx < e.onset_idx
          → predicted_attack np_max config t1_pred proba idx ≡ some (attack idx))
      → (d : DetectionResult) × (detect_early np_max config t1_pred proba e ≡ some d)
        × (d.episode ≡ e)
        × IsEarliest attack config.min_consecutive_correct config.step_seconds d
  unfolding detect_early
  detect_early-IsEarliest config t1_pred proba e attack read =
      let onset = e.onset_idx in
      let start = max 0 (onset - 20) in
      let m = config.min_consecutive_correct in
      let (s, ran, k) =
        search_back-Knows attack m onset (predicted_attack np_max config t1_pred proba) start
          (λ idx lo hi. read idx (omega arith) hi) (onset - start) onset search_begin (omega arith)
          (omega arith) (Knows-begin attack m onset) in
      (
        record {
          episode = e;
          detected = ltb 0 s.best_lead;
          lead_time_steps = s.best_lead;
          lead_time_seconds = s.best_lead * config.step_seconds;
          first_correct_idx = s.first_correct_idx;
          consecutive_correct = s.best_consecutive;
        },
        rw (ran, detect_early),
        refl,
        record {
          lead-le = Found-le attack m onset start s (omega arith) k.found;
          seconds = refl;
          outcome = Found-outcome attack m onset start s k.found;
          earliest = λ idx lo w. k.earliest idx (omega arith) w;
        },
      )
