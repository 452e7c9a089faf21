-- ===== src/MautrixSignal/Config.antt =====
-- config.yaml of the mautrix-signal bridge, its template and its edit:
-- controllers/synapse/mautrixsignal/mautrixsignal_configmap.go.
pub mod Address
pub mod Permissions
pub mod Sections
pub mod Template
use synapse_operator.Base.{String, ◌<>◌, Option, none, some, List, [], ◌∷◌, ◌==◌, if◌then◌else◌}
use synapse_operator.Go.{
  new, Result, ok, err, ◌>>=◌, Value, text, dict, string_dict, Fields, get_field, set_field,
}
use synapse_operator.Kube.{ObjectMeta, ConfigMap}
use synapse_operator.Api.{MautrixSignal}
use synapse_operator.Env.{mautrix_signal, Env}
use synapse_operator.Helpers.Naming.{compute_fqdn}
use synapse_operator.MautrixSignal.Config.Address.{synapse_address, bridge_address}
use synapse_operator.MautrixSignal.Config.Template.{config_yaml}
use synapse_operator.MautrixSignal.Access.{synapse_of_mautrix_signal}

-- `config[key].(map[interface{}]interface{})`
as_section : String → Option Value → Result Fields
as_section name (some (dict m)) = ok m
as_section name v =
    err (new ("cannot parse mautrix-signal config.yaml: error parsing '" <> (name <> "' section")))

-- Edit the section under a key; `name` is its name in the error.
unfoldable pub edit_section : String → String → (Fields → Result Fields) → Fields → Result Fields
unfolding as_section
edit_section key name edit config = do
  section ← as_section name (get_field key config)
  edited ← edit section
  ok (set_field key (dict edited) config)

-- One entry of a map literal: a later value of a key takes the place of an earlier one.
unfoldable pub put_entry : String → String → List (String × String) → List (String × String)
put_entry key v [] = (key, v) ∷ []
put_entry key v ((k, x) ∷ entries) =
    let rest = put_entry key v entries in if k == key then (key, v) ∷ entries else (k, x) ∷ rest

-- `map[string]string{...}`: who may use the bridge, for a server name. A literal whose keys are not
-- constants keeps the last of equal keys.
unfoldable pub permissions : String → List (String × String)
unfolding put_entry
permissions server_name =
    put_entry ("@admin:" <> server_name) "admin"
      (put_entry server_name "user" (put_entry "*" "relay" []))

unfoldable pub edit_homeserver_section : MautrixSignal → Fields → Result Fields
edit_homeserver_section ms m = ok (
    set_field "domain" (text ms.status.server_name)
      (set_field "address" (text (synapse_address ms)) m))

unfoldable pub edit_bridge_section : MautrixSignal → Fields → Result Fields
unfolding permissions
edit_bridge_section ms m =
    ok (set_field "permissions" (string_dict (permissions ms.status.server_name)) m)

unfoldable pub edit_logging_section : Fields → Result Fields
unfolding edit_section
edit_logging_section = edit_section "handlers" "logging/handlers" (
    edit_section "file" "logging/handlers/file"
      (λ m. ok (set_field "filename" (text "/data/mautrix-signal.log") m)))

unfoldable pub update_mautrix_signal_data : MautrixSignal → Fields → Result Fields
unfolding edit_section edit_homeserver_section edit_bridge_section edit_logging_section
update_mautrix_signal_data ms config = do
  c₁ ← edit_section "homeserver" "homeserver" (edit_homeserver_section ms) config
  c₂ ←
      edit_section "appservice" "appservice"
        (λ m. ok (set_field "address" (text (bridge_address ms)) m)) c₁
  c₃ ←
      edit_section "signal" "signal"
        (λ m. ok (set_field "socket_path" (text "/signald/signald.sock") m)) c₂
  c₄ ← edit_section "bridge" "bridge" (edit_bridge_section ms) c₃
  edit_section "logging" "logging" edit_logging_section c₄

module _ (E : Env) where
  unfoldable pub config_map_for_mautrix_signal : MautrixSignal → ObjectMeta → Result ConfigMap
  unfolding config_yaml
  config_map_for_mautrix_signal ms object_meta = do
    m ← E.set_controller_reference mautrix_signal ms object_meta
    ok (record { meta = m; files = ("config.yaml", config_yaml ms) ∷ [] })
