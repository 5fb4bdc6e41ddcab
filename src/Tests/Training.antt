-- ===== src/Tests/Training.antt =====
-- Sequences of stages and the split of a dataset.
use turbo_sh.Common.{
  ℕ, ◌+◌, ◌≤◌, ◌==◌, ◌≡◌, ◌↔◌, ◌⊎◌, ◌≢◌, refl, ℤ, pos, negsuc, List, [], ◌∷◌, map, length, true,
  false, ◌&&◌, none, some, All, get_elem?, replicate, length-replicate, if◌then◌else◌, leb,
  Millionths, millionths, arith,
}
use turbo_sh.Mitre.{StepEntry, map_forecast_to_mitre, map_stage_to_techniques}
use turbo_sh.Mitre.Timeline.{IsGreatest, map_forecast_to_mitre-IsGreatest}
use turbo_sh.Markov.{
  MarkovChain, NumPy, fit, smoothed_row, predict_trajectory, predict_trajectory_proba,
}
use turbo_sh.Markov.Counts.{square, all_occurrences, fit-all_occurrences}
use turbo_sh.Markov.Trajectories.{IsProduct, predict_trajectory-predict_trajectory_proba}
use turbo_sh.Progression.{is_escalating, valid_stages, rises}
use turbo_sh.Progression.Trend.{IsRise, is_escalating-IsRise}
use turbo_sh.Evaluation.{Forecast, Rounding, evaluate, predicts, first_surge, lead_time}
use turbo_sh.Evaluation.Leads.{lead_time-first_surge}
use turbo_sh.Evaluation.Confusion.{samples, matches, IsLabel, evaluate-samples}
use turbo_sh.DataLoader
use turbo_sh.DataLoader.{
  Array, rows2, FeatureScaler, Statistics, flattened, transform, sequence_samples, split_indices,
  Parts,
}
use turbo_sh.DataLoader.Split.{IsSplit, split_indices-IsSplit}
use turbo_sh.DataLoader.Samples.{sample_at, sequence_samples-get}
use turbo_sh.DataLoader.Scaling.{IsByColumn, IsCompatible, fit-transform_total}
use turbo_sh.Tests.{hundredths}

map_forecast_to_mitre-IsGreatest_example :
    (e : StepEntry) × (get_elem? (map_forecast_to_mitre (pos 0 ∷ pos 1 ∷ [])) 1 ≡ some e)
    × (e.step ≡ 2)
    × (e.stage ≡ pos 1)
    × (e.techniques ≡ map_stage_to_techniques (pos 1))
    × IsGreatest e.max_severity e.techniques
map_forecast_to_mitre-IsGreatest_example =
    map_forecast_to_mitre-IsGreatest (pos 0 ∷ pos 1 ∷ []) 1 (pos 1) refl

-- Sums of rows, and a product that keeps the vector.
abbrev total_of : List Millionths → Millionths
total_of [] = some 0
total_of (x ∷ xs) = millionths.add x (total_of xs)

abbrev small_numpy : NumPy Millionths
small_numpy = record { np_sum = total_of; np_argmax = λ xs. 0; vec_mat = λ v m. some v }

abbrev stage_runs : List (List ℤ)
stage_runs = (pos 0 ∷ pos 1 ∷ pos 1 ∷ []) ∷ (pos 1 ∷ negsuc 0 ∷ []) ∷ []

abbrev new_chain : MarkovChain Millionths
new_chain = record { n_states = 2; transition_matrix = []; is_fitted = false }

fit-all_occurrences_example :
    (fit small_numpy stage_runs (hundredths 100) new_chain).transition_matrix
    ≡ map
        (smoothed_row small_numpy (hundredths 100))
        (square 2 (λ a b. all_occurrences a b stage_runs))
fit-all_occurrences_example = fit-all_occurrences small_numpy stage_runs (hundredths 100) new_chain

abbrev even_chain : MarkovChain Millionths
even_chain = record {
  n_states = 2;
  transition_matrix =
      (hundredths 50 ∷ hundredths 50 ∷ []) ∷ (hundredths 0 ∷ hundredths 100 ∷ []) ∷ [];
  is_fitted = true;
}

small_numpy-IsProduct : IsProduct small_numpy.vec_mat
small_numpy-IsProduct = record { product = λ n v matrix same square. (v, refl, same) }

predict_trajectory-predict_trajectory_proba_example :
    (probs : List (List Millionths)) × (predict_trajectory_proba small_numpy (pos 1) 3 even_chain
      ≡ some probs)
    × (predict_trajectory small_numpy (pos 1) 3 even_chain ≡ some (map small_numpy.np_argmax probs))
    × (length probs ≡ 3)
predict_trajectory-predict_trajectory_proba_example =
    predict_trajectory-predict_trajectory_proba small_numpy small_numpy-IsProduct (pos 1) 3
      even_chain (λ e. cc) (refl, (refl, (refl, tt)))

-- A history that falls from 3 to 2 on the way counts as escalating.
falling_history : is_escalating 5 (pos 0 ∷ pos 3 ∷ pos 2 ∷ []) ≡ true
unfolding is_escalating rises
falling_history = refl

is_escalating-IsRise_example :
    (is_escalating 5 (pos 0 ∷ pos 3 ∷ pos 2 ∷ []) ≡ true)
    ↔ IsRise (valid_stages 5 (pos 0 ∷ pos 3 ∷ pos 2 ∷ []))
is_escalating-IsRise_example = is_escalating-IsRise 5 (pos 0 ∷ pos 3 ∷ pos 2 ∷ [])

-- A forecaster that expects a surge two steps after a stage of 1.
abbrev expects : Forecast
expects (pos s) steps = if (s == 1) && (steps == 2) then pos 3 ∷ [] else pos 0 ∷ []
expects (negsuc s) steps = []

surge-first : first_surge (pos 3) 0 (pos 1 ∷ pos 2 ∷ pos 3 ∷ []) ≡ some 2
unfolding first_surge
surge-first = refl

lead_time-first_surge_example :
    let hit = predicts expects (pos 3) (pos 1 ∷ pos 2 ∷ pos 3 ∷ []) 2 in
    (lead : ℕ) × (lead_time expects (pos 3) 3 (pos 1 ∷ pos 2 ∷ pos 3 ∷ []) ≡ some lead)
    × (lead ≤ 3)
    × (lead ≤ 2)
    × ((lead ≡ 0) ⊎ (hit lead ≡ true))
    × ((j : ℕ) → 1 ≤ j → j ≤ 3 → j ≤ 2 → hit j ≡ true → j ≤ lead)
lead_time-first_surge_example =
    lead_time-first_surge expects (pos 3) 3 (pos 1) (pos 2) (pos 3 ∷ []) 2 surge-first

abbrev plain_rounding : Rounding Millionths
plain_rounding = record { round_to = λ n x. x; np_mean = total_of }

abbrev seen : List ℤ
seen = pos 0 ∷ pos 2 ∷ pos 2 ∷ []

abbrev said : List ℤ
said = pos 0 ∷ pos 2 ∷ pos 1 ∷ []

seen-IsLabel : All (IsLabel 5) seen
seen-IsLabel = ((0, refl, omega arith), ((2, refl, omega arith), ((2, refl, omega arith), tt)))

said-IsLabel : All (IsLabel 5) said
said-IsLabel = ((0, refl, omega arith), ((2, refl, omega arith), ((1, refl, omega arith), tt)))

evaluate-samples_example :
    let m = evaluate plain_rounding 5 10 seen said [] in
    (m.confusion_matrix ≡ square 5 (λ a b. samples a b seen said))
    × (m.accuracy
        ≡ plain_rounding.round_to 4 (
            millionths.div
              (millionths.of_nat (matches seen said))
              (millionths.of_nat (length said))))
    × (m.total_samples ≡ length said)
evaluate-samples_example =
    evaluate-samples plain_rounding 5 10 (pos 0) (pos 2 ∷ pos 2 ∷ []) said [] refl seen-IsLabel
      said-IsLabel

-- `int` of a number of millionths.
abbrev whole : Millionths → ℤ
whole none = pos 0
whole (some n) = pos (elim (leb 1_000_000 n) [ true ↦ 1 | false ↦ 0 ])

split_indices-IsSplit_example :
    let parts = split_indices whole (hundredths 70) (hundredths 15) (1 ∷ 0 ∷ []) in
    IsSplit (1 ∷ 0 ∷ []) parts × (1 ≤ length parts.train)
split_indices-IsSplit_example =
    split_indices-IsSplit whole (hundredths 70) (hundredths 15) 1 (0 ∷ [])

abbrev steps : List ℕ
steps = 10 ∷ 11 ∷ 12 ∷ 13 ∷ []

sequence_samples-get_example :
    get_elem? (sequence_samples 2 1 steps steps) 1
    ≡ (if leb (1 + (2 + 1)) (length steps) then some (sample_at 2 1 steps steps 1) else none)
sequence_samples-get_example = sequence_samples-get 2 1 steps steps 1

abbrev flat_statistics : Statistics Millionths
flat_statistics = record {
  np_mean = λ width rows. replicate width (hundredths 200);
  np_std = λ width rows. replicate width (hundredths 0);
}

abbrev one_column : Array Millionths
one_column = rows2 1 ((hundredths 100 ∷ []) ∷ (hundredths 300 ∷ []) ∷ [])

abbrev new_scaler : FeatureScaler Millionths
new_scaler = record { feature_names = "x" ∷ []; eps = some 1; mean = none; std = none }

flat_statistics-IsByColumn : IsByColumn flat_statistics
flat_statistics-IsByColumn = record {
  length-np_mean = λ n rows. length-replicate n (hundredths 200);
  length-np_std = λ n rows. length-replicate n (hundredths 0);
}

fit-transform_total_example :
    (fitted : FeatureScaler Millionths) × (std : List Millionths) × (DataLoader.fit flat_statistics
        one_column new_scaler
      ≡ some fitted)
    × (fitted.std ≡ some std)
    × All (λ s. millionths.lt s (some 1) ≡ false) std
    × ((transform fitted one_column ≢ none) ↔ IsCompatible 1 1)
fit-transform_total_example =
    fit-transform_total flat_statistics flat_statistics-IsByColumn one_column one_column new_scaler
      refl refl
