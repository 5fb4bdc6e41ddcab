-- ===== src/Features/Rows.antt =====
-- The rows of an IP and of the log in pipeline/feature_extraction/feature_extractor.py.
use turbo_sh.Common.{◌≤◌, ◌≡◌, List, Bool, Option, some, String, All, Float, none}
use turbo_sh.Features.{LogEntry, Field, missing, value, other, FeatureRow}
use turbo_sh.NetworkState.{Datetime}

-- Not of another type.
abbrev pub IsExpected {ℓ} : {A : Type ℓ} → Field A → Type 0
IsExpected missing = Unit
IsExpected (value a) = Unit
IsExpected other = ⊥

module _ {ℓ} {F : Type ℓ} ⦃f : Float F⦄ (log2 : F → F) (round4 : F → F)
    (parse_timestamp : String → Option Datetime) where
  abbrev pub IsCounted : FeatureRow F → Type 0
  IsCounted row = row.requests_per_ip_10s ≤ row.requests_per_ip_60s

  abbrev pub InZone : Bool → Option Datetime → Type 0
  InZone zone none = Unit
  InZone zone (some ts) = ts.aware ≡ zone

  -- The timestamp of an entry is missing, does not parse, or is in the zone.
  abbrev pub IsZoned : Bool → Field String → Type 0
  IsZoned zone missing = Unit
  IsZoned zone other = ⊥
  IsZoned zone (value text) = InZone zone (parse_timestamp text)

  pub record IsTyped (zone : Bool) (entry : LogEntry F) : Type 0 where
    pub timestamp : IsZoned zone entry.timestamp
    pub response_time : IsExpected entry.response_time
    pub status_code : IsExpected entry.status_code

  module _ (zone : Bool) where
    -- The valid entries are of the expected types, with times in the zone.
    abbrev Valid : List (Datetime × LogEntry F) → Type 0
    Valid valid = All (λ e. (e.0.aware ≡ zone) × IsTyped zone e.1) valid
