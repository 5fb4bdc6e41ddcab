-- ===== src/Tests/Labels.antt =====
-- The labeler on a sequence of six states.
use turbo_sh.Common.{
  ◌≡◌, ◌≢◌, ◌↔◌, refl, List, [], ◌∷◌, map, some, get_elem?, Millionths, millionths,
}
use turbo_sh.Config.{normal, recon, surge, sustained}
use turbo_sh.NetworkState.{NetworkState}
use turbo_sh.Labeler.{label_state, label_sequence, refine, mark}
use turbo_sh.Labeler.Runs.{promote, label_sequence-promote}
use turbo_sh.Labeler.Windows.{InSurgeWindow, label_sequence-sustained_iff}
use turbo_sh.Tests.{state_of, utc}

abbrev attack : List (NetworkState Millionths Unit)
attack =
    state_of "a" (utc 0) 10
    ∷ state_of "a" (utc 1) 70
    ∷ state_of "a" (utc 2) 90
    ∷ state_of "a" (utc 3) 80
    ∷ state_of "a" (utc 4) 30
    ∷ state_of "a" (utc 5) 75
    ∷ []

attack-labels :
    label_sequence attack ≡ normal ∷ sustained ∷ sustained ∷ sustained ∷ recon ∷ surge ∷ []
unfolding label_sequence refine mark label_state
attack-labels = refl

label_sequence-sustained_iff_example :
    (get_elem? (label_sequence attack) 2 ≡ some sustained)
    ↔ InSurgeWindow (map label_state attack) 2
label_sequence-sustained_iff_example = label_sequence-sustained_iff attack 2

other : get_elem? (label_sequence attack) 5 ≢ some sustained
unfolding label_sequence refine mark label_state
other e = cc

label_sequence-promote_example : label_sequence attack ≡ promote 0 (map label_state attack)
label_sequence-promote_example = label_sequence-promote attack
