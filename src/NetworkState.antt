-- ===== src/NetworkState.antt =====
-- `NetworkState` of forecasting/state_store.py, over the type `F` of floats and the type `J` of the
-- parsed JSON objects of `extended_features`.
use turbo_sh.Common.{ℕ, String, Bool, Option, ℤ, List, [], ◌∷◌}

-- A `datetime`: microseconds on its clock, which is UTC where it is aware of its time zone.
pub record Datetime : Type 0 where
  pub micros : ℕ
  pub aware : Bool

pub record NetworkState {ℓ} (F J : Type ℓ) : Type ℓ where
  pub timestamp : Datetime
  pub ip_hash : String
  pub requests_per_ip_10s : F
  pub requests_per_ip_60s : F
  pub endpoint_entropy : F
  pub latency_spike : F
  pub error_rate : F
  pub request_variance : F
  pub anomaly_score : F
  pub action : String
  pub extended_features : J
  pub label : Option ℤ

module _ {ℓ} {F J : Type ℓ} where
  -- `feature_vector`: the attributes in the order of `FEATURE_NAMES`
  pub feature_vector : NetworkState F J → List F
  feature_vector s =
      s.requests_per_ip_10s ∷ s.requests_per_ip_60s ∷ s.endpoint_entropy ∷ s.latency_spike
      ∷ s.error_rate ∷ s.request_variance ∷ []
