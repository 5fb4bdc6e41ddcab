-- ===== src/Tests/Runs.antt =====
-- A benchmark of two models, a training of four epochs, and a telemetry log.
use turbo_sh.Common.{
  ℕ, zero, suc, ◌+◌, ◌*◌, ◌<◌, ◌≤◌, ◌≡◌, ◌≢◌, ◌⊎◌, refl, String, List, [], ◌∷◌, ◌++◌, map, true,
  Option, none, some, length, All, Millionths, millionths, Millionths-IsOrdered,
}
use turbo_sh.Markov.{tabulate}
use turbo_sh.Store.{init}
use turbo_sh.Persistence.{to_row, returned, raised}
use turbo_sh.Evaluation.{EvaluationMetrics, Rounding}
use turbo_sh.Benchmark.{
  SelectionRule, ModelBenchmarkResult, Results, judge, gates, composite, apply_selection_rule,
}
use turbo_sh.Benchmark.Selection.{IsJudged, IsSelection, apply_selection_rule-IsSelection}
use turbo_sh.Training.{Trainer, Epoch, train}
use turbo_sh.Training.Stopping.{before, loss, train-least}
use turbo_sh.Serialization.{Parser, Value, text, number, boolean, null, nested}
use turbo_sh.Telemetry.{World, Turn, File, run, ingest_file}
use turbo_sh.Telemetry.Ingestion.{settled, parsed, ingest_file-parsed}
use turbo_sh.Telemetry.Rotation.{Sees, run-both_files}
use turbo_sh.Tests.{hundredths, utc, heap}
use turbo_sh.Tests.Databases.{Table, working, text_codec, working-IsDatabase}

abbrev plain : Rounding Millionths
plain = record { round_to = λ n x. x; np_mean = λ xs. hundredths 0 }

abbrev rule : SelectionRule Millionths
rule = record {
  min_f1_macro = hundredths 45;
  max_false_positive_rate = hundredths 30;
  max_inference_latency_ms = hundredths 500;
  weight_accuracy = hundredths 30;
  weight_f1 = hundredths 25;
  weight_lead_time = hundredths 25;
  weight_latency = hundredths 10;
  weight_coverage = hundredths 10;
}

abbrev metrics : ℕ → EvaluationMetrics Millionths
metrics f1 = record {
  accuracy = hundredths 80;
  precision_macro = hundredths f1;
  recall_macro = hundredths f1;
  f1_macro = hundredths f1;
  stage_metrics = [];
  confusion_matrix = [];
  mean_lead_time_steps = hundredths 0;
  mean_lead_time_seconds = hundredths 0;
  total_samples = 10;
}

abbrev result : String → ℕ → ModelBenchmarkResult Millionths
result name f1 = record {
  model_name = name;
  multistep_metrics = (1, metrics f1) ∷ [];
  lead_time_results = none;
  timing = none;
  model_size_bytes = 0;
  peak_memory_mb = hundredths 0;
  passes_thresholds = true;
  composite_score = hundredths 0;
  disqualification_reasons = [];
}

abbrev results : Results Millionths
results =
    ("Markov Chain", result "Markov Chain" 40)
    ∷ ("Gaussian HMM", result "Gaussian HMM" 60)
    ∷ ("Transformer", result "Transformer" 70)
    ∷ []

results-IsJudged : All (λ e. IsJudged (judge rule e.1)) results
unfolding judge gates composite
results-IsJudged = (tt, (refl, (refl, tt)))

apply_selection_rule-IsSelection_example :
    (judged : Results Millionths) × (selected : Option String) × (apply_selection_rule plain rule
        results
      ≡ some (judged, selected))
    × IsSelection rule results selected
apply_selection_rule-IsSelection_example =
    apply_selection_rule-IsSelection Millionths-IsOrdered plain rule results results-IsJudged

-- A model is its number of epochs, and the second epoch is the best.
abbrev loss_at : ℕ → Millionths
loss_at zero = hundredths 90
loss_at (suc zero) = hundredths 40
loss_at (suc (suc n)) = hundredths 60

abbrev counter : Trainer Millionths ℕ ℕ ℕ ℕ ℕ
counter = record {
  logits = λ m x. x;
  criterion = λ out y h. hundredths 0;
  update = λ norm m x y l. m;
  size = λ x. 1;
  correct_t1 = λ out y. 0;
  set_mode = λ mode m. m;
  state_dict = λ m. m;
  load_state_dict = λ w m. w;
  inf = hundredths 1_000_000;
}

abbrev one_epoch : ℕ → Epoch Millionths ℕ
one_epoch m = record {
  model = suc m;
  epoch_train_loss = hundredths 0;
  epoch_val_loss = loss_at m;
  epoch_val_acc_t1 = hundredths 0;
}

loss_at-finite : (m : ℕ) → millionths.lt (loss_at m) (hundredths 1_000_000) ≡ true
loss_at-finite zero = refl
loss_at-finite (suc zero) = refl
loss_at-finite (suc (suc n)) = refl

train-least_example :
    let (trained, history) = train counter 3 one_epoch 2 4 0 in
    (k i : ℕ) × (i < k)
    × (trained ≡ before one_epoch 0 (suc i))
    × (history.val_loss ≡ tabulate 0 k (loss one_epoch 0))
    × ((j : ℕ) → j < k → millionths.le (loss one_epoch 0 i) (loss one_epoch 0 j) ≡ true)
    × ((k ≡ 4) ⊎ ((k ≤ 4) × (suc i + 2 ≤ k)))
train-least_example =
    train-least Millionths-IsOrdered counter 3 one_epoch 0 2 3 (λ j. loss_at-finite _)

-- A line is a state of its own IP, unless it is blank.
abbrev parser : Parser Millionths Unit
parser = record {
  strip = λ s. s;
  loads = λ s. some (record {
    fields = ("ip_hash", Value.text s) ∷ ("timestamp", Value.number (hundredths 100)) ∷ [];
    label = none;
  });
  str_of = λ v. elim v [
    | text s ↦ s
    | number x ↦ "number"
    | boolean b ↦ "True"
    | null ↦ "None"
    | nested j ↦ "{}"
  ];
  float_of_text = λ s. none;
  truthy = λ v. true;
  json = λ v. tt;
  replace_z = λ s. s;
  fromisoformat = λ s. none;
  fromtimestamp = λ x. some (utc 1_000_000);
  now = utc 0;
  empty_object = tt;
}

abbrev world : World Millionths Unit Table
world = record { heap = heap; store = init 2 "states.db"; db = [] }

abbrev log_file : ℕ → ℕ → File
log_file inode size = record { handle = inode; inode = inode; ctime = 7; size = size }

-- The old file has two lines, and the new one three, of two bytes each.
abbrev content : ℕ → List String
content zero = []
content (suc zero) = "a" ∷ "b" ∷ []
content (suc (suc n)) = "c" ∷ "" ∷ "d" ∷ []

abbrev turn_at : ℕ → ℕ → ℕ → Turn Millionths
turn_at inode size seconds = record {
  at_path = some (log_file inode size);
  opens = true;
  content = content;
  time = hundredths (seconds * 100);
}

abbrev old_turns : List (Turn Millionths)
old_turns = turn_at 1 4 1 ∷ turn_at 1 4 2 ∷ turn_at 1 4 8 ∷ []

abbrev new_turns : List (Turn Millionths)
new_turns = turn_at 2 6 9 ∷ turn_at 2 6 10 ∷ turn_at 2 6 11 ∷ []

old-Sees : (n : ℕ) → Sees (λ line. 2) (log_file 1 4) ("a" ∷ "b" ∷ []) (turn_at 1 4 n)
old-Sees n = record { at_path = refl; opens = refl; content = refl; size = refl }

new-Sees : (n : ℕ) → Sees (λ line. 2) (log_file 2 6) ("c" ∷ "" ∷ "d" ∷ []) (turn_at 2 6 n)
new-Sees n = record { at_path = refl; opens = refl; content = refl; size = refl }

run-both_files_example :
    let (w', outcome) =
      run parser text_codec working
        (λ line. 2)
        true
        (hundredths 500)
        (old_turns ++ new_turns)
        (hundredths 0)
        world in
    (w'.db
      ≡ settled text_codec working world
        ++ map
            (to_row text_codec working)
            (parsed parser ("a" ∷ "b" ∷ []) ++ parsed parser ("c" ∷ "" ∷ "d" ∷ [])))
    × (w'.store.unflushed ≡ [])
    × (outcome ≢ raised)
unfolding init
run-both_files_example =
    run-both_files parser text_codec working (λ line. 2) working-IsDatabase (λ db rs e. cc)
      (hundredths 500) (hundredths 0) (log_file 1 4) (log_file 2 6) ("a" ∷ "b" ∷ [])
      ("c" ∷ "" ∷ "d" ∷ []) old_turns new_turns world (tt, refl) (λ e. cc) (λ e. cc) (λ e. cc)
      (old-Sees 1, (old-Sees 2, (old-Sees 8, tt))) (new-Sees 9, (new-Sees 10, (new-Sees 11, tt)))

ingest_file-parsed_example :
    let (w', outcome) = ingest_file parser text_codec working (some ("a" ∷ "" ∷ "b" ∷ [])) world in
    (w'.db
      ≡ settled text_codec working world
        ++ map (to_row text_codec working) (parsed parser ("a" ∷ "" ∷ "b" ∷ [])))
    × (w'.store.unflushed ≡ [])
    × (outcome ≡ returned (length (parsed parser ("a" ∷ "" ∷ "b" ∷ []))))
unfolding init
ingest_file-parsed_example =
    ingest_file-parsed parser text_codec working working-IsDatabase (λ db rs e. cc)
      ("a" ∷ "" ∷ "b" ∷ []) world (tt, refl)
