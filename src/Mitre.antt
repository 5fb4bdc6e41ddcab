-- ===== src/Mitre.antt =====
-- forecasting/mitre_mapping.py: the techniques of MITRE ATT&CK by attack stage, and the timeline of
-- a forecast.
pub mod Timeline
use turbo_sh.Common.{
  ℕ, zero, suc, ◌+◌, String, List, [], ◌∷◌, Bool, true, false, Option, none, some, ℤ, pos, negsuc,
  if◌then◌else◌,
}
use turbo_sh.Config.{stage_name?}

-- The texts that the comment on `severity` lists.
pub data Severity : Type 0 where
  info : Severity
  low : Severity
  medium : Severity
  high : Severity
  critical : Severity

abbrev pub is_severity : Severity → Severity → Bool
is_severity info info = true
is_severity low low = true
is_severity medium medium = true
is_severity high high = true
is_severity critical critical = true
is_severity _ _ = false

pub record MitreTechnique : Type 0 where
  pub technique_id : String
  pub name : String
  pub tactic : String
  pub description : String
  pub severity : Severity

abbrev technique : String → String → String → String → Severity → MitreTechnique
technique technique_id name tactic description severity = record {
  technique_id = technique_id;
  name = name;
  tactic = tactic;
  description = description;
  severity = severity;
}

abbrev normal_techniques : List MitreTechnique
normal_techniques = []

abbrev recon_techniques : List MitreTechnique
recon_techniques =
    technique "T1595" "Active Scanning" "Reconnaissance"
      "Adversaries scan public IP blocks and endpoints to gather vulnerability or routing information."
      medium
    ∷ technique "T1046" "Network Service Discovery" "Discovery"
        "Probing ports and listening services to enumerate proxy and backend routes." medium
    ∷ technique "T1592" "Gather Victim Host Information" "Reconnaissance"
        "Querying system endpoints and response headers to identify software stack." low
    ∷ []

abbrev escalation_techniques : List MitreTechnique
escalation_techniques =
    technique "T1110" "Brute Force" "Credential Access"
      "Systematically submitting passwords or tokens across authentication routes." high
    ∷ technique "T1078" "Valid Accounts" "Defense Evasion"
        "Utilizing harvested credentials or tokens to bypass standard rate limiters." high
    ∷ technique "T1498" "Network Denial of Service (Preparation)" "Impact"
        "Ramping request frequency and thread concurrency prior to full volumetric saturation." high
    ∷ []

abbrev surge_techniques : List MitreTechnique
surge_techniques =
    technique "T1498" "Network Denial of Service" "Impact"
      "Volumetric flooding of proxy endpoints degrading server network capacity." high
    ∷ technique "T1499" "Endpoint Denial of Service" "Impact"
        "Targeting compute-heavy application routes to starve CPU, memory, or connection pools."
        high
    ∷ technique "T1496" "Resource Hijacking" "Impact"
        "Saturating available proxy bandwidth and worker goroutines." high
    ∷ []

abbrev sustained_techniques : List MitreTechnique
sustained_techniques =
    technique "T1498.001" "Direct Network Flood" "Impact"
      "Protracted high-volume packet and HTTP flood targeting proxy listeners across consecutive windows."
      critical
    ∷ technique "T1499.001" "OS Exhaustion Flood" "Impact"
        "Sustained connection floods causing file descriptor or TCP socket backlog depletion."
        critical
    ∷ technique "T1499.002" "Service Exhaustion Flood" "Impact"
        "Persistent request bombardment preventing regular clients from reaching backend services."
        critical
    ∷ []

-- `MITRE_STAGE_MAPPING.get(stage, [])`
unfoldable pub map_stage_to_techniques : ℤ → List MitreTechnique
map_stage_to_techniques (pos zero) = normal_techniques
map_stage_to_techniques (pos (suc zero)) = recon_techniques
map_stage_to_techniques (pos (suc (suc zero))) = escalation_techniques
map_stage_to_techniques (pos (suc (suc (suc zero)))) = surge_techniques
map_stage_to_techniques (pos (suc (suc (suc (suc zero))))) = sustained_techniques
map_stage_to_techniques _ = []

-- `any(t.severity == severity for t in techniques)`
unfoldable pub has_severity : Severity → List MitreTechnique → Bool
has_severity severity [] = false
has_severity severity (t ∷ ts) =
    if is_severity t.severity severity then true else has_severity severity ts

-- The chain of tests for `max_severity`.
unfoldable pub max_severity : List MitreTechnique → Severity
max_severity techniques =
    if has_severity critical techniques
    then critical
    else if has_severity high techniques
    then high
    else if has_severity medium techniques
    then medium
    else if has_severity low techniques
    then low
    else info

-- An entry of the timeline. Its `horizon_label` is the text `t+` and the step.
pub record StepEntry : Type 0 where
  pub step : ℕ
  pub stage : ℤ
  pub stage_name : String
  pub max_severity : Severity
  pub techniques : List MitreTechnique

unfoldable pub step_entry : ℕ → ℤ → StepEntry
step_entry step stage =
    let techniques = map_stage_to_techniques stage in
    record {
      step = step;
      stage = stage;
      stage_name = elim (stage_name? stage) [ none ↦ "UNKNOWN" | some name ↦ name ];
      max_severity = max_severity techniques;
      techniques = techniques;
    }

-- `for step_idx, stage in enumerate(forecast, start=step)`
unfoldable pub timeline_from : ℕ → List ℤ → List StepEntry
timeline_from step [] = []
timeline_from step (stage ∷ forecast) = step_entry step stage ∷ timeline_from (suc step) forecast

unfoldable pub map_forecast_to_mitre : List ℤ → List StepEntry
map_forecast_to_mitre forecast = timeline_from 1 forecast
