-- ===== src/LeadTime/Comparison.antt =====
-- `statistical_comparison` of forecasting/evaluation/lead_time.py. NumPy's mean and the Wilcoxon test
-- of SciPy are parameters.
use turbo_sh.Common.{
  ℕ, List, [], ◌∷◌, Bool, true, false, Option, none, some, if◌then◌else◌, ltb, min, length, take,
  Float,
}

-- What the text of the conclusion says.
pub data Conclusion : Type 0 where
  insufficient : ℕ → Conclusion
  no_difference : Conclusion
  not_computed : Conclusion
  a_is_earlier : Conclusion
  b_is_earlier : Conclusion
  not_significant : Conclusion

pub record StatTestResult {ℓ} (F : Type ℓ) : Type ℓ where
  pub statistic : F
  pub p_value : F
  pub model_a_mean : F
  pub model_b_mean : F
  pub is_significant : Bool
  pub conclusion : Conclusion

-- `none` of the test is its `ValueError`.
pub record SciPy {ℓ} (F : Type ℓ) : Type ℓ where
  pub np_mean : List F → F
  pub wilcoxon : List F → List F → Option (F × F)

module _ {ℓ} {F : Type ℓ} ⦃f : Float F⦄ (sci : SciPy F) where
  open f use {lt, eq, sub, of_nat, ratio}
  open sci use {np_mean, wilcoxon}

  -- `np.all(a - b == 0)`
  abbrev pub all_zero : List F → List F → Bool
  all_zero [] bs = true
  all_zero (a ∷ rest_a) [] = true
  all_zero (a ∷ rest_a) (b ∷ rest_b) =
      if eq (sub a b) (of_nat 0) then all_zero rest_a rest_b else false

  abbrev mean_or_none : List F → F
  mean_or_none [] = of_nat 0
  mean_or_none (x ∷ xs) = np_mean (x ∷ xs)

  abbrev no_test : F → F → Conclusion → StatTestResult F
  no_test mean_a mean_b conclusion = record {
    statistic = of_nat 0;
    p_value = of_nat 1;
    model_a_mean = mean_a;
    model_b_mean = mean_b;
    is_significant = false;
    conclusion = conclusion;
  }

  -- The result of a test that was computed.
  abbrev tested : F → F → F → F → StatTestResult F
  tested mean_a mean_b stat p_value =
      let is_sig = lt p_value (ratio 5 100) in
      record {
        statistic = stat;
        p_value = p_value;
        model_a_mean = mean_a;
        model_b_mean = mean_b;
        is_significant = is_sig;
        conclusion =
            if is_sig
            then if lt mean_b mean_a then a_is_earlier else b_is_earlier
            else not_significant;
      }

  unfoldable pub statistical_comparison : List F → List F → StatTestResult F
  statistical_comparison times_a times_b =
      let n = min (length times_a) (length times_b) in
      let a = take n times_a in
      let b = take n times_b in
      if ltb n 5
      then no_test (mean_or_none times_a) (mean_or_none times_b) (insufficient n)
      else if all_zero a b
      then no_test (np_mean a) (np_mean b) no_difference
      else elim (wilcoxon a b) [
        | none ↦ no_test (np_mean a) (np_mean b) not_computed
        | some (stat, p_value) ↦ tested (np_mean a) (np_mean b) stat p_value
      ]
