-- ===== src/Benchmark/Runs.antt =====
-- `_build_adapters`, `_evaluate_model` and `run` of forecasting/benchmark/runner.py, for the data that
-- `_load_data` leaves. The files of models, the clock and the measured memory are parameters.
use turbo_sh.Common.{
  ℕ, String, List, [], ◌∷◌, map, Bool, true, false, Option, none, some, ℤ, pos, if◌then◌else◌,
  str_eq, take, Float,
}
use turbo_sh.Config.{forecast_horizon, stage_count}
use turbo_sh.Markov.{MarkovChain, NumPy}
use turbo_sh.Hmm.{HmmForecaster, Gaussian}
use turbo_sh.DataLoader.{FeatureScaler}
use turbo_sh.Neural.Lstm.{LstmForecaster}
use turbo_sh.Neural.Attention.{Torch}
use turbo_sh.Neural.Transformer.{TransformerForecaster}
use turbo_sh.Evaluation.{EvaluationMetrics, Rounding}
use turbo_sh.Evaluation.Multistep.{matrix, evaluate_multistep}
use turbo_sh.LeadTime.{LeadTimeConfig, table}
use turbo_sh.LeadTime.FalseAlarms.{LeadTimeResults, compute_lead_times}
use turbo_sh.Protocol.{Sequence, ForecastModel, Times, measure_inference_latency}
use turbo_sh.Protocol.MarkovAdapter
use turbo_sh.Protocol.HmmAdapter
use turbo_sh.Protocol.LstmAdapter
use turbo_sh.Protocol.TransformerAdapter
use turbo_sh.Benchmark.{
  SelectionRule, ModelBenchmarkResult, Results, metrics_at, apply_selection_rule,
}

-- `d[name] = v`: a key keeps its place.
abbrev pub insert {ℓ} : {V : Type ℓ} → String → V → List (String × V) → List (String × V)
insert name v [] = (name, v) ∷ []
insert name v ((key, w) ∷ rest) =
    if str_eq key name then (key, v) ∷ rest else (key, w) ∷ insert name v rest

-- The files of the models directory, `none` for one that cannot be loaded, and which files exist.
pub record ModelFiles {ℓ} (F : Type ℓ) : Type ℓ where
  pub markov_file : String → Option (MarkovChain F)
  pub hmm_file : String → Option (HmmForecaster F)
  pub lstm_file : String → Option (LstmForecaster F)
  pub transformer_file : String → Option (TransformerForecaster F)
  pub file_size : String → Option ℕ
  pub join : String → String → String

-- The models that `_build_adapters` knows, by `name.lower().strip()`.
pub data Kind : Type 0 where
  markov hmm lstm transformer unknown : Kind

-- An array of shape `(N, horizon)` with at least one column.
abbrev pub stage_table : List (List ℤ) → Option (List (ℤ × List ℤ))
stage_table [] = some []
stage_table ([] ∷ rows) = none
stage_table ((s ∷ row) ∷ rows) = elim (stage_table rows) [
  | none ↦ none
  | some rest ↦ some ((s, row) ∷ rest)
]

module _ {ℓ} {F : Type ℓ} ⦃f : Float F⦄ (np : NumPy F) (gauss : Gaussian F) (torch : Torch F)
    (files : ModelFiles F) (kind_of : String → Kind) (models_dir : String) (width : ℕ)
    (scaler : Option (FeatureScaler F)) where
  open files use {markov_file, hmm_file, lstm_file, transformer_file, file_size, join}

  -- The HMM that decodes the current state, where its file exists.
  abbrev with_hmm : MarkovAdapter.MarkovChainAdapter F → Option (MarkovAdapter.MarkovChainAdapter F)
  with_hmm adapter =
      let hmm_path = join models_dir "hmm_model.json" in
      elim (file_size hmm_path) [
        | none ↦ some adapter
        | some size ↦
            elim (HmmAdapter.load hmm_file hmm_path (HmmAdapter.new_adapter 5 forecast_horizon)) [
              | none ↦ none
              | some hmm_adapter ↦ some (MarkovAdapter.set_hmm hmm_adapter.hmm adapter)
            ]
      ]

  -- The adapter that a name asks for; `none` for an unknown name, and where loading fails.
  unfoldable pub build_adapter : Kind → Option (ForecastModel F)
  build_adapter markov =
      elim (MarkovAdapter.load markov_file (join models_dir "markov_chain.json")
        (MarkovAdapter.new_adapter none 5 forecast_horizon)) [
          | none ↦ none
          | some loaded ↦ elim (with_hmm (MarkovAdapter.set_scaler scaler loaded)) [
            | none ↦ none
            | some adapter ↦ some (MarkovAdapter.as_model np gauss width file_size adapter)
          ]
        ]
  build_adapter hmm =
      elim (HmmAdapter.load hmm_file (join models_dir "hmm_model.json")
        (HmmAdapter.new_adapter 5 forecast_horizon)) [
          | none ↦ none
          | some loaded ↦
              some
                (HmmAdapter.as_model np gauss width file_size (HmmAdapter.set_scaler scaler loaded))
        ]
  build_adapter lstm =
      elim (LstmAdapter.load lstm_file (join models_dir "lstm_model.pt")
        (LstmAdapter.new_adapter forecast_horizon)) [
          | none ↦ none
          | some loaded ↦ some (LstmAdapter.as_model np torch.softmax width file_size loaded)
        ]
  build_adapter transformer =
      elim (TransformerAdapter.load transformer_file (join models_dir "transformer_model.pt")
        (TransformerAdapter.new_adapter forecast_horizon)) [
          | none ↦ none
          | some loaded ↦ some (TransformerAdapter.as_model np torch width file_size loaded)
        ]
  build_adapter unknown = none

  -- `_build_adapters`, with the adapters built so far
  unfoldable pub build_adapters :
      List String → List (String × ForecastModel F) → List (String × ForecastModel F)
  unfolding build_adapter
  build_adapters [] adapters = adapters
  build_adapters (name ∷ names) adapters = elim (build_adapter (kind_of name)) [
    | none ↦ build_adapters names adapters
    | some adapter ↦ build_adapters names (insert adapter.model_name adapter adapters)
  ]

-- The measurements, and NumPy's statistics and Python's `round` for the evaluators.
pub record Measures {ℓ} (F : Type ℓ) : Type ℓ where
  pub rounding : Rounding F
  pub times : Times F
  pub clock : String → ℕ → F
  pub peak_memory : String → F
  pub lead_max : List F → Option F
  pub lead_mean : List ℕ → F
  pub lead_median : List ℕ → F
  pub lead_round : F → ℕ → F

module _ {ℓ} {F : Type ℓ} ⦃f : Float F⦄ (measures : Measures F) (config : LeadTimeConfig F)
    (step_seconds : ℕ) where
  open measures use {
    rounding, times, clock, peak_memory, lead_max, lead_mean, lead_median, lead_round,
  }

  -- `multistep_metrics[h]` for h in 1, 2, 3; `false` is the `KeyError`.
  abbrev has_steps : List (ℕ × EvaluationMetrics F) → Bool
  has_steps metrics = elim (metrics_at 1 metrics) [
    | none ↦ false
    | some m1 ↦ elim (metrics_at 2 metrics) [
      | none ↦ false
      | some m2 ↦ elim (metrics_at 3 metrics) [ none ↦ false | some m3 ↦ true ]
    ]
  ]

  -- The two evaluators on the true and the predicted stages.
  unfoldable pub evaluate_predictions :
      List (List ℤ) → List (List ℤ) → Option (List (ℕ × EvaluationMetrics F) × LeadTimeResults F)
  evaluate_predictions test_y preds =
      elim (evaluate_multistep rounding stage_count step_seconds (matrix forecast_horizon test_y)
        (matrix forecast_horizon preds)) [
          | none ↦ none
          | some metrics ↦ elim (stage_table test_y) [
            | none ↦ none
            | some trues ↦ elim (stage_table preds) [
              | none ↦ none
              | some predicted ↦
                  elim (compute_lead_times lead_max lead_mean lead_median lead_round config
                    (table trues) (table predicted) none) [
                      | none ↦ none
                      | some lead ↦ if has_steps metrics then some (metrics, lead) else none
                    ]
            ]
          ]
        ]

  -- `_evaluate_model`; `none` is an exception.
  unfoldable pub evaluate_model :
      ForecastModel F → List (Sequence F) → List (List ℤ) → Option (ModelBenchmarkResult F)
  unfolding evaluate_predictions
  evaluate_model adapter [] test_y = none
  evaluate_model adapter (sample ∷ test_x) test_y = elim (adapter.predict_batch (sample ∷ test_x)) [
    | none ↦ none
    | some preds ↦ elim (evaluate_predictions test_y (map (map pos) preds)) [
      | none ↦ none
      | some (metrics, lead) ↦
          elim (measure_inference_latency times (clock adapter.model_name) adapter sample 50 5) [
            | none ↦ none
            | some timing ↦ elim (adapter.predict_batch (take 10 (sample ∷ test_x))) [
              | none ↦ none
              | some _ ↦ some (record {
                model_name = adapter.model_name;
                multistep_metrics = metrics;
                lead_time_results = some lead;
                timing = some timing;
                model_size_bytes = adapter.get_model_size_bytes;
                peak_memory_mb = rounding.round_to 2 (peak_memory adapter.model_name);
                passes_thresholds = true;
                composite_score = f.of_nat 0;
                disqualification_reasons = [];
              })
            ]
          ]
    ]
  ]

  -- `for name, adapter in adapters.items()`
  unfoldable pub evaluate_all :
      List (Sequence F)
      → List (List ℤ)
      → List (String × ForecastModel F)
      → Results F
      → Option (Results F)
  unfolding evaluate_model
  evaluate_all test_x test_y [] results = some results
  evaluate_all test_x test_y ((name, adapter) ∷ adapters) results =
      elim (evaluate_model adapter test_x test_y) [
        | none ↦ none
        | some result ↦ evaluate_all test_x test_y adapters (insert name result results)
      ]

  -- `run`, from the adapters on: the results, and the model that is selected.
  unfoldable pub run_benchmark :
      SelectionRule F
      → List (Sequence F)
      → List (List ℤ)
      → List (String × ForecastModel F)
      → Option (Results F × Option String)
  unfolding evaluate_all
  run_benchmark rule test_x test_y [] = some ([], none)
  run_benchmark rule test_x test_y (adapter ∷ adapters) =
      elim (evaluate_all test_x test_y (adapter ∷ adapters) []) [
        | none ↦ none
        | some results ↦ apply_selection_rule rounding rule results
      ]
