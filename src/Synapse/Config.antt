-- ===== src/Synapse/Config.antt =====
-- The ConfigMap that holds homeserver.yaml, controllers/synapse/synapse/synapse_configmap.go: what is
-- written for a Synapse that gives values, the validation of a given one, and the edits.
pub mod Parse
pub mod Template
pub mod AppServices
use synapse_operator.Base.{String, ◌<>◌, Bool, Option, none, some, [], ◌∷◌, ◌++◌}
use synapse_operator.Go.{
  new, Result, ok, err, ◌>>=◌, Value, text, bool, dict, string_slice, Fields, get_field, set_field,
}
use synapse_operator.Kube.{ObjectMeta, NamespacedName, ConfigMap}
use synapse_operator.Api.{Synapse, SynapseHomeserverValues, ObjectRef}
use synapse_operator.Env.{synapse, Env}
use synapse_operator.Helpers.Naming.{bool_to_string, compute_namespace}
use synapse_operator.Helpers.Config.{load_yaml_file}
use synapse_operator.Synapse.Config.Template.{homeserver_yaml}
use synapse_operator.Synapse.Database.{fetch_database_data}

-- The name and namespace of the ConfigMap that the user gave.
unfoldable pub input_config_map_key : Synapse → ObjectRef → NamespacedName
unfolding compute_namespace
input_config_map_key s ref = record {
  name = ref.name;
  namespace = compute_namespace s.meta.namespace ref.namespace;
}

-- `if _, ok := homeserver["server_name"]; !ok {…}` and `homeserver["server_name"].(string)`
text_of_key : Option Value → Result String
text_of_key none = err (new "missing server_name key in homeserver.yaml")
text_of_key (some (text t)) = ok t
text_of_key (some v) = err (new "error converting server_name to string")

-- The same for `report_stats` and `.(bool)`.
bool_of_key : Option Value → Result Bool
bool_of_key none = err (new "missing report_stats key in homeserver.yaml")
bool_of_key (some (bool b)) = ok b
bool_of_key (some v) = err (new "error converting report_stats to bool")

unfoldable pub homeserver_values_of : Fields → Result SynapseHomeserverValues
unfolding text_of_key bool_of_key
homeserver_values_of homeserver = do
  server_name ← text_of_key (get_field "server_name" homeserver)
  report_stats ← bool_of_key (get_field "report_stats" homeserver)
  ok (record { server_name = server_name; report_stats = report_stats })

-- Adds one file to the list of application services. A list that the YAML decoder made is a
-- `[]interface{}`, and the assertion `.([]string)` fails on it.
unfoldable pub add_app_service_to_homeserver : String → Fields → Fields
add_app_service_to_homeserver path homeserver =
    elim (get_field "app_service_config_files" homeserver) [
      | some (string_slice files) ↦
          set_field "app_service_config_files" (string_slice (files ++ path ∷ [])) homeserver
      | _ ↦ set_field "app_service_config_files" (string_slice (path ∷ [])) homeserver
    ]

abbrev pub heisenbridge_file : String
heisenbridge_file = "/data-heisenbridge/heisenbridge.yaml"

abbrev pub mautrix_signal_file : String
mautrix_signal_file = "/data-mautrixsignal/registration.yaml"

unfoldable pub update_homeserver_with_heisenbridge_infos : Fields → Result Fields
update_homeserver_with_heisenbridge_infos homeserver =
    ok (add_app_service_to_homeserver heisenbridge_file homeserver)

unfoldable pub update_homeserver_with_mautrix_signal_infos : Fields → Result Fields
update_homeserver_with_mautrix_signal_infos homeserver =
    ok (add_app_service_to_homeserver mautrix_signal_file homeserver)

module _ (E : Env) where
  unfoldable pub config_map_for_synapse :
      Synapse → SynapseHomeserverValues → ObjectMeta → Result ConfigMap
  unfolding homeserver_yaml
  config_map_for_synapse s v object_meta = do
    m ← E.set_controller_reference synapse s object_meta
    ok (record { meta = m; files = ("homeserver.yaml", homeserver_yaml v) ∷ [] })

  unfoldable pub parse_homeserver_config_map : Synapse → ConfigMap → Result Synapse
  unfolding homeserver_values_of
  parse_homeserver_config_map s cm = do
    homeserver ← load_yaml_file E cm "homeserver.yaml"
    v ← homeserver_values_of homeserver
    ok (record s {
      status = record (s.status) {
        homeserver_configuration = record {
          server_name = v.server_name;
          report_stats = v.report_stats;
        };
      };
    })

  unfoldable pub update_homeserver_with_postgresql_infos : Synapse → Fields → Result Fields
  update_homeserver_with_postgresql_infos s homeserver = do
    database ← fetch_database_data E.yaml s.status.database_connection_info
    ok (set_field "database" (dict database) homeserver)
