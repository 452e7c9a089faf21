-- ===== src/MautrixSignal/Config/Template.antt =====
-- The config.yaml of a bridge without a ConfigMap of the user: the text in
-- `configMapForMautrixSignal` of controllers/synapse/mautrixsignal/mautrixsignal_configmap.go, line by
-- line, its parts in the child modules.
pub mod Active
pub mod Bridge
pub mod Services
pub mod Signal
pub mod Users
use synapse_operator.Base.{String, List, [], ◌∷◌}
use synapse_operator.Text.Lines.{joined, concat}
use synapse_operator.Api.{MautrixSignal}
use synapse_operator.MautrixSignal.Config.Template.Services.{service_lines}
use synapse_operator.MautrixSignal.Config.Template.Signal.{signal_lines}
use synapse_operator.MautrixSignal.Config.Template.Bridge.{bridge_lines}
use synapse_operator.MautrixSignal.Config.Template.Users.{user_lines}

unfoldable pub config_parts : MautrixSignal → List (List String)
config_parts ms = service_lines ms ∷ signal_lines ∷ bridge_lines ∷ user_lines ms ∷ []

unfoldable pub config_lines : MautrixSignal → List String
config_lines ms = concat (config_parts ms)

unfoldable pub config_yaml : MautrixSignal → String
config_yaml ms = joined (config_lines ms)
