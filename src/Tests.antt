-- ===== src/Tests.antt =====
-- Values for the tests and the examples of the theorems.
pub mod Labels
pub mod Stores
pub mod Databases
pub mod Forecasts
pub mod Logs
pub mod Training
pub mod Explanations
pub mod Models
pub mod Networks
pub mod Adapters
pub mod Runs
use turbo_sh.Common.{
  ℕ, zero, suc, ◌*◌, ◌≡◌, refl, ap, ℤ, String, List, [], ◌∷◌, ◌++◌, Bool, true, false, Option, none,
  some, Millionths,
}
use turbo_sh.NetworkState.{NetworkState, Datetime}
use turbo_sh.Store.{Heap, Ref}

-- A number of hundredths.
abbrev pub hundredths : ℕ → Millionths
hundredths n = some (n * 10_000)

abbrev pub utc : ℕ → Datetime
utc t = record { micros = t; aware = true }

abbrev pub naive : ℕ → Datetime
naive t = record { micros = t; aware = false }

abbrev pub state_of : String → Datetime → ℕ → NetworkState Millionths Unit
state_of ip time score = record {
  timestamp = time;
  ip_hash = ip;
  requests_per_ip_10s = hundredths 100;
  requests_per_ip_60s = hundredths 300;
  endpoint_entropy = hundredths 50;
  latency_spike = hundredths 0;
  error_rate = hundredths 10;
  request_variance = hundredths 20;
  anomaly_score = hundredths score;
  action = "allow";
  extended_features = tt;
  label = none;
}

abbrev pub cell_of : Ref → NetworkState Millionths Unit
cell_of zero = state_of "a" (utc 10) 20
cell_of (suc zero) = state_of "b" (utc 20) 75
cell_of (suc (suc zero)) = state_of "a" (utc 30) 40
cell_of (suc (suc (suc _))) = state_of "a" (naive 40) 90

abbrev pub heap : Heap Millionths Unit
heap = record { next = 10; cell = cell_of }
