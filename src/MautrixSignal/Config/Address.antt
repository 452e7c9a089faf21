-- ===== src/MautrixSignal/Config/Address.antt =====
-- The addresses in config.yaml, in `configMapForMautrixSignal` and `updateMautrixSignalData` of
-- controllers/synapse/mautrixsignal/mautrixsignal_configmap.go.
use synapse_operator.Base.{String, ◌<>◌}
use synapse_operator.Api.{MautrixSignal}
use synapse_operator.Helpers.Naming.{compute_fqdn}
use synapse_operator.MautrixSignal.Access.{synapse_of_mautrix_signal}

unfoldable pub synapse_address : MautrixSignal → String
unfolding compute_fqdn synapse_of_mautrix_signal
synapse_address ms =
    let key = synapse_of_mautrix_signal ms in
    "http://" <> (compute_fqdn key.name key.namespace <> ":8008")

unfoldable pub bridge_address : MautrixSignal → String
unfolding compute_fqdn
bridge_address ms = "http://" <> (compute_fqdn ms.meta.name ms.meta.namespace <> ":29328")
