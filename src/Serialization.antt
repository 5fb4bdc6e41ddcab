-- ===== src/Serialization.antt =====
-- `from_dict` and `to_dict` of `NetworkState` in forecasting/state_store.py. The text forms of numbers
-- and of `datetime` are parameters.
use turbo_sh.Common.{
  String, List, [], ◌∷◌, Bool, Option, none, some, ℤ, if◌then◌else◌, str_eq, Float,
}
use turbo_sh.NetworkState.{NetworkState, Datetime}

-- A parsed JSON value. A number is a float, which is all that `from_dict` makes of it; any JSON value can
-- be put into `J`.
pub data Value {ℓ} (F J : Type ℓ) : Type ℓ where
  text : String → Value F J
  number : F → Value F J
  boolean : Bool → Value F J
  null : Value F J
  nested : J → Value F J

-- A parsed line: its fields but `label`, which is an integer or missing, as `NetworkState` annotates it.
pub record Entry {ℓ} (F J : Type ℓ) : Type ℓ where
  pub fields : List (String × Value F J)
  pub label : Option ℤ

-- Python's conversions and truth values; `none` is an exception. `loads` is `none` for a text that is no
-- JSON object.
pub record Parser {ℓ} (F J : Type ℓ) : Type ℓ where
  pub strip : String → String
  pub loads : String → Option (Entry F J)
  pub str_of : Value F J → String
  pub float_of_text : String → Option F
  pub truthy : Value F J → Bool
  pub json : Value F J → J
  pub replace_z : String → String
  pub fromisoformat : String → Option Datetime
  pub fromtimestamp : F → Option Datetime
  pub now : Datetime
  pub empty_object : J

-- `data.get(key)`
abbrev pub get {ℓ} : {V : Type ℓ} → String → List (String × V) → Option V
get key [] = none
get key ((k, v) ∷ fields) = if str_eq k key then some v else get key fields

-- A value that may be missing, and what is done with it.
abbrev and_then {κ μ} : {A : Type κ} {B : Type μ} → Option A → (A → Option B) → Option B
and_then none k = none
and_then (some a) k = k a

module _ {ℓ} {F J : Type ℓ} ⦃f : Float F⦄ (parser : Parser F J) where
  open parser use {
    strip, loads, str_of, float_of_text, truthy, json, replace_z, fromisoformat, fromtimestamp, now,
    empty_object,
  }

  -- A boolean is an integer of Python.
  abbrev pub of_bool : Bool → F
  of_bool b = f.of_nat (if b then 1 else 0)

  -- The timestamp; `none` where `fromtimestamp` raises.
  unfoldable pub timestamp_of : Option (Value F J) → Option Datetime
  timestamp_of (some (text ts_raw)) = elim (fromisoformat (replace_z ts_raw)) [
    | none ↦ some now
    | some ts ↦ some ts
  ]
  timestamp_of (some (number ts_raw)) = fromtimestamp ts_raw
  timestamp_of (some (boolean b)) = fromtimestamp (of_bool b)
  timestamp_of (some null) = some now
  timestamp_of (some (nested j)) = some now
  timestamp_of none = some now

  -- `float(data.get(key, 0.0))`
  abbrev pub float_at : Option (Value F J) → Option F
  float_at none = some (f.of_nat 0)
  float_at (some (number x)) = some x
  float_at (some (text t)) = float_of_text t
  float_at (some (boolean b)) = some (of_bool b)
  float_at (some null) = none
  float_at (some (nested j)) = none

  -- `str(data.get(key, default))`
  abbrev pub string_at : String → Option (Value F J) → String
  string_at default none = default
  string_at default (some v) = str_of v

  -- `data.get("extended_features", {}) or {}`
  abbrev pub features_at : Option (Value F J) → J
  features_at none = empty_object
  features_at (some v) = if truthy v then json v else empty_object

  unfoldable pub from_dict : Entry F J → Option (NetworkState F J)
  unfolding timestamp_of
  from_dict entry =
      let fields = entry.fields in
      and_then (timestamp_of (get "timestamp" fields)) (λ ts.
        and_then (float_at (get "requests_per_ip_10s" fields)) (λ r10.
          and_then (float_at (get "requests_per_ip_60s" fields)) (λ r60.
            and_then (float_at (get "endpoint_entropy" fields)) (λ entropy.
              and_then (float_at (get "latency_spike" fields)) (λ spike.
                and_then (float_at (get "error_rate" fields)) (λ rate.
                  and_then (float_at (get "request_variance" fields)) (λ variance.
                    and_then (float_at (get "anomaly_score" fields)) (λ score. some (record {
                      timestamp = ts;
                      ip_hash = string_at "" (get "ip_hash" fields);
                      requests_per_ip_10s = r10;
                      requests_per_ip_60s = r60;
                      endpoint_entropy = entropy;
                      latency_spike = spike;
                      error_rate = rate;
                      request_variance = variance;
                      anomaly_score = score;
                      action = string_at "ALLOW" (get "action" fields);
                      extended_features = features_at (get "extended_features" fields);
                      label = entry.label;
                    })))))))))

-- `asdict(self)`, with the timestamp as a text; `nested` puts `extended_features` back.
unfoldable pub to_dict {ℓ} :
    {F J : Type ℓ} → (isoformat : Datetime → String) → NetworkState F J → Entry F J
to_dict isoformat s = record {
  fields =
      ("timestamp", text (isoformat s.timestamp))
      ∷ ("ip_hash", text s.ip_hash)
      ∷ ("requests_per_ip_10s", number s.requests_per_ip_10s)
      ∷ ("requests_per_ip_60s", number s.requests_per_ip_60s)
      ∷ ("endpoint_entropy", number s.endpoint_entropy)
      ∷ ("latency_spike", number s.latency_spike)
      ∷ ("error_rate", number s.error_rate)
      ∷ ("request_variance", number s.request_variance)
      ∷ ("anomaly_score", number s.anomaly_score)
      ∷ ("action", text s.action)
      ∷ ("extended_features", nested s.extended_features)
      ∷ [];
  label = s.label;
}
