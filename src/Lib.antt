-- ===== src/Lib.antt =====
-- turboSH: models of the Python forecasting engine and of the telemetry pipeline that feeds it.
--
-- The feature extractor (pipeline/feature_extraction/feature_extractor.py) turns the traffic log
-- into rows of behavioural features by IP. The state store (forecasting/state_store.py) keeps the
-- network states in a bounded buffer with an index by IP, and persists them to SQLite. The
-- labeler (forecasting/state_labeler.py) gives the stored states an attack stage of the taxonomy
-- of forecasting/config.py. The forecasters are trained on windows of the store, and what they
-- predict is judged by the lead-time evaluator (forecasting/evaluation/lead_time.py).
--
-- Files, and what they model:
-- - Common, Common/: Boolean tests, lists measured by native numbers, Python's integers, and an
--   interface Float of the operations on floats with the laws of IEEE 754 order that a proof
--   uses. Millionths is an instance for runs on concrete numbers.
-- - Config: the constants and AttackStage of forecasting/config.py.
-- - NetworkState: the dataclass NetworkState and its feature_vector.
-- - Labeler, Labeler/: label_state and label_sequence. The loop of the second pass is refine, its
--   inner loop is mark. Labeler/Dataset is generate_labeled_dataset, whose writes into the stored
--   states are steps on the heap.
-- - Store, Store/: StateStore in memory: append, get_ip_history, get_time_range,
--   get_all_sequences, __len__. States are references into a heap, since the labeler writes into
--   the objects that the store holds. Each method holds the lock, and is one step.
-- - Persistence, Persistence/: flush_to_sqlite and load_from_sqlite. The database is a value of a
--   type that the parameter Sqlite reads and extends; its insertion may fail. isoformat,
--   fromisoformat and json are the parameter Codec.
-- - LeadTime, LeadTime/: LeadTimeEvaluator. detect is both loops of detect_episodes, search_back
--   the loop of evaluate_detections with search_step its body, alarm_mask the loop of
--   compute_false_alarms. LeadTime/Comparison is statistical_comparison, with the Wilcoxon test
--   of SciPy as a parameter and the text of the conclusion as a data type.
-- - Features, Features/: extract_features. eval_times is the while loop over the ends of windows,
--   next_end its step.
-- - Dataset, Dataset/: classify_row and label_dataset of
--   pipeline/dataset_builder/build_dataset.py.
-- - Mitre, Mitre/: forecasting/mitre_mapping.py, the techniques by stage and
--   map_forecast_to_mitre.
-- - Markov, Markov/: MarkovChain of forecasting/models/markov_chain.py. count_pair is the body of
--   the loops of fit; NumPy's sum, argmax and product are the parameter NumPy.
-- - Progression, Progression/: AttackProgressionModel of forecasting/attack_progression.py, over
--   the Markov chain and the store.
-- - Evaluation, Evaluation/: evaluate and analyze_lead_times of
--   forecasting/evaluation/evaluator.py. look_back is the inner loop of analyze_lead_times.
--   Evaluation/Multistep is evaluate_multistep and accuracy_vs_horizon_curve.
-- - DataLoader, DataLoader/: FeatureScaler, _extract_sliding_windows and the split of
--   create_dataloaders in forecasting/models/data_loader.py. The shuffle has been done: the split
--   takes the shuffled indices.
-- - Hmm, Hmm/: HMMForecaster of forecasting/models/hmm_model.py. An array with an entry for each
--   state is a function; all_densities says whether some _log_gaussian_pdf of viterbi raises,
--   decode is viterbi without that; forward is its recursion, and keeps the rows of backpointer
--   latest first.
-- - Neural, Neural/: LSTMForecaster of forecasting/models/lstm_model.py, and the Transformer of
--   forecasting/models/transformer_model.py with its attention and encoder layers, in evaluation
--   mode, where dropout does nothing. A layer of PyTorch is a function of one sequence or one
--   vector of the size it takes: it treats the entries of a batch alone. Sums and views of other
--   sizes are none.
-- - Protocol, Protocol/: the interface ForecastModel of forecasting/models/protocol.py as a
--   record of operations, and its four adapters, one module each; as_model gives an adapter as a
--   ForecastModel.
-- - Benchmark, Benchmark/: forecasting/benchmark/runner.py. judge_all is the loop of
--   _apply_selection_rule; Benchmark/Runs composes the adapters, the evaluators and the rule as
--   run does.
-- - Training, Training/: the training loops of forecasting/train_lstm.py and
--   forecasting/train_transformer.py, which share train: after_epoch is what an epoch does to the
--   variables, stops the break of early stopping. The state of a model holds the random
--   generator, from which a loader shuffles its batches anew each epoch.
-- - Explainability, Explainability/: Explainer of forecasting/explainability.py. The gradient of
--   PyTorch is a parameter, and a sentence is the value of its parts; horizon_label is left as
--   its step.
-- - Serialization, Serialization/: NetworkState.from_dict and to_dict of
--   forecasting/state_store.py.
-- - Telemetry, Telemetry/: TelemetryCollector of forecasting/telemetry_collector.py. A turn of
--   the loop of run has the file at the path, the lines of each file, and the time; reader_of is
--   the test of rotation with what open answers, and the heap grows by each parsed state, and the
--   store and the database are those of Store and Persistence.
-- - Tests, Tests/: values, runs of the code on them, and the theorems applied to them.
--
-- Numbers: counts and indices are natural numbers, stages and labels Python integers. A time is a
-- number of microseconds, as datetime and timedelta hold it, and so are the lengths of windows: a
-- step that timedelta rounds to 0, on which the loop of extract_features does not end, is no
-- length here. The only fuel is that of eval_times: it is t_last + 2, which is more than the
-- rounds that the loop can make, since each moves its end by at least one microsecond.
--
-- Exceptions are none, or raised for the methods that change a store or a database.
--
-- Not modelled: train_hmm.py, ONNX export, the anomaly model under ml, plots, reports in
-- Markdown, command lines and files; inside the networks, the layers of PyTorch, dropout, masks
-- and gradients, which are calls of the library; the Go proxy (core, cmd, monitoring, config). In
-- the models: an ip_hash or an endpoint of a log entry that is no text, a label of a telemetry
-- line that is no integer, a log file that is cut or rewritten within a line, a negative limit of
-- load_from_sqlite, and values of extended_features that JSON cannot hold.
pub mod Common
pub mod Config
pub mod NetworkState
pub mod Benchmark
pub mod DataLoader
pub mod Dataset
pub mod Evaluation
pub mod Explainability
pub mod Features
pub mod Hmm
pub mod Labeler
pub mod LeadTime
pub mod Markov
pub mod Mitre
pub mod Neural
pub mod Persistence
pub mod Progression
pub mod Protocol
pub mod Serialization
pub mod Store
pub mod Telemetry
pub mod Training
pub mod Tests
