-- ===== src/Synapse/Status/Bridges.antt =====
-- Which bridge a Synapse takes over from the bridges of the cluster.
use synapse_operator.Base.{
  String, ◌≡◌, refl, true, Option, none, some, List, [], ◌∷◌, ◌==◌, arith, if◌then◌else◌,
}
use synapse_operator.Api.{Heisenbridge, MautrixSignal, BridgeStatus}
use synapse_operator.Synapse.Status.{find_heisenbridge, find_mautrix_signal}

-- The last Heisenbridge that names the Synapse, by recursion from the front.
unfoldable pub last_heisenbridge : String → List Heisenbridge → Option Heisenbridge
last_heisenbridge name [] = none
last_heisenbridge name (h ∷ items) =
    let later = last_heisenbridge name items in
    elim later [ some h' ↦ some h' | none ↦ if h.spec.synapse.name == name then some h else none ]

unfoldable pub last_mautrix_signal : String → List MautrixSignal → Option MautrixSignal
last_mautrix_signal name [] = none
last_mautrix_signal name (ms ∷ items) =
    let later = last_mautrix_signal name items in
    elim later [
      | some ms' ↦ some ms'
      | none ↦ if ms.spec.synapse.name == name then some ms else none
    ]

abbrev pub heisenbridge_or : Option Heisenbridge → BridgeStatus → BridgeStatus
heisenbridge_or none found = found
heisenbridge_or (some h) found = record { enabled = true; name = h.meta.name }

abbrev pub mautrix_signal_or : Option MautrixSignal → BridgeStatus → BridgeStatus
mautrix_signal_or none found = found
mautrix_signal_or (some ms) found = record { enabled = true; name = ms.meta.name }

-- The status shows the last Heisenbridge of the list that names the Synapse. If none does, it stays
-- as it was: a bridge that was enabled is not disabled when it is gone.
pub find_heisenbridge_last :
    (name : String) (items : List Heisenbridge) (found : BridgeStatus)
    → find_heisenbridge name items found ≡ heisenbridge_or (last_heisenbridge name items) found
unfolding find_heisenbridge last_heisenbridge
find_heisenbridge_last name [] found = refl
find_heisenbridge_last name (h ∷ items) found = ground (
  arith,
  find_heisenbridge_last name items (
      if h.spec.synapse.name == name then record { enabled = true; name = h.meta.name } else found),
)

-- The status shows the last MautrixSignal of the list that names the Synapse. If none does, it stays
-- as it was.
pub find_mautrix_signal_last :
    (name : String) (items : List MautrixSignal) (found : BridgeStatus)
    → find_mautrix_signal name items found
      ≡ mautrix_signal_or (last_mautrix_signal name items) found
unfolding find_mautrix_signal last_mautrix_signal
find_mautrix_signal_last name [] found = refl
find_mautrix_signal_last name (ms ∷ items) found = ground (
  arith,
  find_mautrix_signal_last name items (
      if ms.spec.synapse.name == name
      then record { enabled = true; name = ms.meta.name }
      else found),
)
