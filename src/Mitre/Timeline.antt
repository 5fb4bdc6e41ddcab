-- ===== src/Mitre/Timeline.antt =====
-- `map_forecast_to_mitre` of forecasting/mitre_mapping.py.
use turbo_sh.Common.{
  ℕ, zero, suc, ◌+◌, ◌≤◌, ◌<◌, ◌≡◌, refl, ap, ◌∙◌, ◌⊎◌, inl, inr, List, [], ◌∷◌, true, false, none,
  some, ℤ, if◌then◌else◌, get_elem?, All, arith, Bool-cases,
}
use native.Mathlib.Decide.{dec_lt}
use turbo_sh.Mitre.{
  Severity, info, low, medium, high, critical, MitreTechnique, has_severity, max_severity,
  is_severity, StepEntry, step_entry, timeline_from, map_forecast_to_mitre, map_stage_to_techniques,
}

-- The order of the severities.
abbrev pub rank : Severity → ℕ
rank info = 0
rank low = 1
rank medium = 2
rank high = 3
rank critical = 4

-- Some technique has this severity.
abbrev pub HasSeverity : Severity → List MitreTechnique → Type 0
HasSeverity severity [] = ⊥
HasSeverity severity (t ∷ ts) = (t.severity ≡ severity) ⊎ HasSeverity severity ts

is_severity_sound : (a b : Severity) → is_severity a b ≡ true → a ≡ b
is_severity_sound a b h = ground arith

is_severity_refl : (a : Severity) → is_severity a a ≡ true
is_severity_refl a = ground arith

has_severity_sound :
    (s : Severity) (ts : List MitreTechnique) → has_severity s ts ≡ true → HasSeverity s ts
unfolding has_severity
has_severity_sound s [] h = cc
has_severity_sound s (t ∷ ts) h = elim (Bool-cases (is_severity t.severity s)) [
  | inl here ↦ inl (is_severity_sound t.severity s here)
  | inr there ↦ inr (has_severity_sound s ts (rw there at h))
]

-- If no technique has a severity above `m`, `m` bounds them.
bound :
    (m : ℕ) (ts : List MitreTechnique)
    → ((s : Severity) → m < rank s → has_severity s ts ≡ false)
    → All (λ t. rank t.severity ≤ m) ts
unfolding has_severity
bound m [] h = tt
bound m (t ∷ ts) h = (
  elim (dec_lt m (rank t.severity)) [
    | yes above ↦
        let clash : (if is_severity t.severity t.severity then true else has_severity t.severity ts)
            ≡ false =
          h t.severity above in
        absurd (ground (arith, is_severity_refl t.severity))
    | no within ↦ omega arith
  ],
  bound m ts (λ s above. ground (arith, h s above)),
)

-- `s` is the greatest severity of the techniques, and that of information where there is none.
abbrev pub IsGreatest : Severity → List MitreTechnique → Type 0
IsGreatest s ts =
    All (λ t. rank t.severity ≤ rank s) ts
    × (HasSeverity s ts ⊎ ((s ≡ info) × All (λ t. t.severity ≡ info) ts))

only_info :
    (ts : List MitreTechnique) → All (λ t. rank t.severity ≤ 0) ts → All (λ t. t.severity ≡ info) ts
only_info [] a = tt
only_info (t ∷ ts) a = (ground arith, only_info ts a.1)

max_severity-IsGreatest : (ts : List MitreTechnique) → IsGreatest (max_severity ts) ts
unfolding max_severity
max_severity-IsGreatest ts = elim (Bool-cases (has_severity critical ts)) [
  | inl c ↦ rw c (bound 4 ts (λ s above. ground arith), inl (has_severity_sound critical ts c))
  | inr no_c ↦ elim (Bool-cases (has_severity high ts)) [
    | inl h ↦
        rw (no_c, h) (bound 3 ts (λ s above. ground arith), inl (has_severity_sound high ts h))
    | inr no_h ↦ elim (Bool-cases (has_severity medium ts)) [
      | inl m ↦
          rw (no_c, no_h, m)
            (bound 2 ts (λ s above. ground arith), inl (has_severity_sound medium ts m))
      | inr no_m ↦ elim (Bool-cases (has_severity low ts)) [
        | inl l ↦
            rw (no_c, no_h, no_m, l)
              (bound 1 ts (λ s above. ground arith), inl (has_severity_sound low ts l))
        | inr no_l ↦
            let calm = bound 0 ts (λ s above. ground arith) in
            rw (no_c, no_h, no_m, no_l) (calm, inr (refl, only_info ts calm))
      ]
    ]
  ]
]

step_entry-fields :
    (step : ℕ) (stage : ℤ)
    → let e = step_entry step stage in
      (e.step ≡ step)
      × (e.stage ≡ stage)
      × (e.techniques ≡ map_stage_to_techniques stage)
      × IsGreatest e.max_severity e.techniques
unfolding step_entry
step_entry-fields step stage =
    (refl, refl, refl, max_severity-IsGreatest (map_stage_to_techniques stage))

timeline_from-get :
    (step k : ℕ) (forecast : List ℤ) (stage : ℤ)
    → get_elem? forecast k ≡ some stage
    → get_elem? (timeline_from step forecast) k ≡ some (step_entry (step + k) stage)
unfolding timeline_from
timeline_from-get step k [] stage at = cc
timeline_from-get step zero (x ∷ xs) stage at =
    ap (λ n. some (step_entry n x)) {x = step} {y = step + 0} (omega arith)
    ∙ ap (λ o. elim o [ none ↦ none | some y ↦ some (step_entry (step + 0) y) ]) at
timeline_from-get step (suc k) (x ∷ xs) stage at =
    timeline_from-get (suc step) k xs stage at
    ∙ ap (λ n. some (step_entry n stage)) {x = suc step + k} {y = step + suc k} (omega arith)

-- The entry of the timeline for each stage of a forecast counts its step from 1 and has the
-- techniques of the stage. Its severity is the greatest of theirs: none is above it, and one of
-- them has it unless they are all informational or there is none.
pub map_forecast_to_mitre-IsGreatest :
    (forecast : List ℤ) (k : ℕ) (stage : ℤ)
    → get_elem? forecast k ≡ some stage
    → (e : StepEntry) × (get_elem? (map_forecast_to_mitre forecast) k ≡ some e)
      × (e.step ≡ suc k)
      × (e.stage ≡ stage)
      × (e.techniques ≡ map_stage_to_techniques stage)
      × IsGreatest e.max_severity e.techniques
unfolding map_forecast_to_mitre
map_forecast_to_mitre-IsGreatest forecast k stage at =
    let (step, same, techniques, greatest) = step_entry-fields (suc k) stage in
    (
      step_entry (suc k) stage,
      timeline_from-get 1 k forecast stage at
          ∙ ap (λ n. some (step_entry n stage)) {x = 1 + k} {y = suc k} (omega arith),
      step,
      same,
      techniques,
      greatest,
    )
