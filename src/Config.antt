-- ===== src/Config.antt =====
-- forecasting/config.py: the attack stages and the constants of the forecasting engine.
use turbo_sh.Common.{
  ℕ, zero, suc, String, Option, none, some, List, [], ◌∷◌, ℤ, pos, Bool, true, false,
}

-- `AttackStage`, an `IntEnum`; `stage_value` is its integer.
pub data AttackStage : Type 0 where
  normal recon escalation surge sustained : AttackStage

abbrev pub stage_value : AttackStage → ℕ
stage_value normal = 0
stage_value recon = 1
stage_value escalation = 2
stage_value surge = 3
stage_value sustained = 4

-- `label == AttackStage.SURGE`
abbrev pub is_surge : AttackStage → Bool
is_surge surge = true
is_surge _ = false

-- `STAGE_NAMES.get(s)`; `none` is the missing key.
unfoldable pub stage_name? : ℤ → Option String
stage_name? (pos zero) = some "NORMAL"
stage_name? (pos (suc zero)) = some "RECON"
stage_name? (pos (suc (suc zero))) = some "ESCALATION"
stage_name? (pos (suc (suc (suc zero)))) = some "SURGE"
stage_name? (pos (suc (suc (suc (suc zero))))) = some "SUSTAINED"
stage_name? _ = none

-- `len(STAGE_NAMES)`
abbrev pub stage_count : ℕ
stage_count = 5

abbrev pub feature_names : List String
feature_names =
    "requests_per_ip_10s" ∷ "requests_per_ip_60s" ∷ "endpoint_entropy" ∷ "latency_spike"
    ∷ "error_rate" ∷ "request_variance" ∷ []

abbrev pub default_ring_buffer_capacity : ℕ
default_ring_buffer_capacity = 10_000

abbrev pub time_step_seconds : ℕ
time_step_seconds = 10

abbrev pub forecast_horizon : ℕ
forecast_horizon = 3

abbrev pub sustained_min_consecutive_steps : ℕ
sustained_min_consecutive_steps = 3
