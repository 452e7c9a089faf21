-- ===== src/Tests/Signal.antt =====
-- A concrete MautrixSignal, its config.yaml and its objects.
use synapse_operator.Text.Bytes.{split}
use synapse_operator.Text.Lines.{active, is_line}
use synapse_operator.Helpers.Naming.{compute_fqdn, compute_namespace}
use synapse_operator.MautrixSignal.Config.Template.{config_yaml}
use synapse_operator.MautrixSignal.Config.Template.Active.{bridge_settings, config_yaml-settings}
use synapse_operator.Base.{◌≡◌, refl, true, none, some, List, [], ◌∷◌}
use synapse_operator.Go.{Fields, end, field, text, dict, string_dict, get_field, set_field}
use synapse_operator.Kube.{ObjectMeta, PersistentVolumeClaim, Deployment, from_claim}
use synapse_operator.Api.{Synapse, MautrixSignal}
use synapse_operator.Env.{mautrix_signal}
use synapse_operator.Exec.{returned}
use synapse_operator.Helpers.Naming.{compute_namespace, join}
use synapse_operator.Synapse.Access.{empty_synapse}
use synapse_operator.Synapse.Status.{with_bridges}
use synapse_operator.Synapse.Status.Bridges.{last_mautrix_signal}
use synapse_operator.Synapse.Resources.{meta_for_synapse, labels_for_synapse}
use synapse_operator.Synapse.Deployment.{pod_for_synapse, deployment_for_synapse}
use synapse_operator.Synapse.Deployment.Volumes.{sources_in}
use synapse_operator.MautrixSignal.Access.{synapse_of_mautrix_signal}
use synapse_operator.MautrixSignal.Config.Address.{synapse_address, bridge_address}
use synapse_operator.MautrixSignal.Config.{
  put_entry, permissions, edit_section, edit_homeserver_section, edit_bridge_section,
  edit_logging_section, update_mautrix_signal_data,
}
use synapse_operator.MautrixSignal.Config.Sections.{
  section_field, update_mautrix_signal_data-configures,
}
use synapse_operator.MautrixSignal.Resources.{
  get_signald_resource_name, meta_for_mautrix_signal, meta_for_signald, labels_for_mautrix_signal,
  labels_for_signald, mautrix_signal_pod, signald_pod, claim_for_mautrix_signal,
  deployment_for_mautrix_signal, deployment_for_signald,
}
use synapse_operator.MautrixSignal.Controller.{
  MautrixSignalStep, mautrix_signal_steps, input_of_mautrix_signal, failed_input,
  copy_input_mautrix_signal_config_map,
}
use synapse_operator.MautrixSignal.Steps.{
  Rising, contains_step, needed, mautrix_signal_steps-Rising,
}
use synapse_operator.MautrixSignal.Effects.{copy_input_mautrix_signal_config_map-stays_failed}
use synapse_operator.MautrixSignal.Wiring.{
  mautrix_signal-shares_socket, pod_for_synapse-mounts_mautrix_signal,
}
use synapse_operator.Tests.Memory.{
  Stored, memory, not_found, result, subreconciler-IsSubreconciler, memory-IsQuiet,
  memory-KeepsMeta, find, matching,
}

abbrev signal_meta : ObjectMeta
signal_meta = record { name = "signal"; namespace = "chat"; labels = []; owner_references = [] }

abbrev bridge : MautrixSignal
bridge = record {
  meta = signal_meta;
  spec = record {
    config_map = record { name = "input"; namespace = "" };
    synapse = record { name = "matrix"; namespace = "" };
  };
  status = record { state = ""; reason = ""; server_name = "example.com"; is_openshift = true };
}

abbrev owned_by : ObjectMeta → ObjectMeta
owned_by m = record m {
  owner_references = (record { kind = "Synapse"; name = "signal" }) ∷ m.owner_references;
}

abbrev claim_of : ObjectMeta → PersistentVolumeClaim
claim_of m = record {
  meta = owned_by m;
  access_modes = "ReadWriteOnce" ∷ [];
  volume_mode = "Filesystem";
  storage = 5368709120;
}

bridge_deployment : Deployment
bridge_deployment = record {
  meta = owned_by signal_meta;
  replicas = 1;
  match_labels = labels_for_mautrix_signal "signal";
  pod_labels = labels_for_mautrix_signal "signal";
  pod = mautrix_signal_pod bridge signal_meta;
}

abbrev signald_meta : ObjectMeta
signald_meta = record signal_meta { name = "signal-signald" }

signald_deployment : Deployment
signald_deployment = record {
  meta = owned_by signald_meta;
  replicas = 1;
  match_labels = labels_for_signald "signal";
  pod_labels = labels_for_signald "signal";
  pod = signald_pod signald_meta;
}

abbrev its_synapse : Synapse
its_synapse = record empty_synapse { meta = record signal_meta { name = "matrix" } }

mautrix_signal-shares_socket_example :
    (sources_in "/signald" bridge_deployment.pod ≡ none ∷ some (from_claim "signal-signald") ∷ [])
    × (sources_in "/signald" signald_deployment.pod ≡ some (from_claim "signal-signald") ∷ [])
    × (sources_in "/data" bridge_deployment.pod
        ≡ some (from_claim "signal") ∷ some (from_claim "signal") ∷ [])
    × ("chat" ≡ bridge_deployment.meta.namespace)
    × ("chat" ≡ signald_deployment.meta.namespace)
    × ("chat" ≡ bridge_deployment.meta.namespace)
unfolding bridge_deployment signald_deployment deployment_for_mautrix_signal deployment_for_signald
    claim_for_mautrix_signal meta_for_mautrix_signal meta_for_signald get_signald_resource_name join
    labels_for_mautrix_signal labels_for_signald
mautrix_signal-shares_socket_example =
    mautrix_signal-shares_socket (memory true) (memory-KeepsMeta true) bridge
      (claim_of signald_meta) (claim_of signal_meta) bridge_deployment signald_deployment refl refl
      refl refl

abbrev told_synapse : Synapse
told_synapse = with_bridges its_synapse [] (bridge ∷ [])

homeserver_deployment : Deployment
homeserver_deployment = record {
  meta = record signal_meta {
    name = "matrix";
    owner_references = (record { kind = "Synapse"; name = "matrix" }) ∷ [];
  };
  replicas = 1;
  match_labels = labels_for_synapse "matrix";
  pod_labels = labels_for_synapse "matrix";
  pod = pod_for_synapse told_synapse (meta_for_synapse its_synapse);
}

pod_for_synapse-mounts_mautrix_signal_example :
    ("chat" ≡ homeserver_deployment.meta.namespace)
    × (sources_in "/data-mautrixsignal" homeserver_deployment.pod
        ≡ none ∷ some (from_claim "signal") ∷ [])
unfolding homeserver_deployment claim_for_mautrix_signal meta_for_mautrix_signal last_mautrix_signal
    deployment_for_synapse meta_for_synapse labels_for_synapse with_bridges
pod_for_synapse-mounts_mautrix_signal_example =
    pod_for_synapse-mounts_mautrix_signal (memory true) (memory-KeepsMeta true) bridge its_synapse
      [] (bridge ∷ []) (claim_of signal_meta) homeserver_deployment refl refl refl refl

mautrix_signal_steps-Rising_example :
    Rising 0 (mautrix_signal_steps bridge)
    × ((step : MautrixSignalStep)
        → contains_step step (mautrix_signal_steps bridge) ≡ needed bridge step)
mautrix_signal_steps-Rising_example = mautrix_signal_steps-Rising bridge

abbrev config : Fields
config = field "homeserver" (dict end) (
    field "appservice" (dict end) (
      field "signal" (dict end) (
        field "bridge" (dict end) (
          field "logging" (dict (field "handlers" (dict (field "file" (dict end) end)) end)) end))))

configured_config : Fields
configured_config =
    field "homeserver"
      (dict
        (field "address" (text (synapse_address bridge)) (field "domain" (text "example.com") end)))
      (field "appservice" (dict (field "address" (text (bridge_address bridge)) end)) (
        field "signal" (dict (field "socket_path" (text "/signald/signald.sock") end)) (
          field "bridge"
            (dict (
              field "permissions"
                (string_dict
                  (("*", "relay") ∷ ("example.com", "user") ∷ ("@admin:example.com", "admin") ∷ []))
                end))
            (field "logging"
              (dict (
                field "handlers"
                  (dict (
                    field "file" (dict (field "filename" (text "/data/mautrix-signal.log") end))
                      end))
                  end))
              end))))

update_mautrix_signal_data-configures_example :
    (section_field "homeserver" "address" configured_config ≡ some (text (synapse_address bridge)))
    × (section_field "homeserver" "domain" configured_config ≡ some (text "example.com"))
    × (section_field "appservice" "address" configured_config ≡ some (text (bridge_address bridge)))
    × (section_field "signal" "socket_path" configured_config ≡ some (text "/signald/signald.sock"))
    × (section_field "bridge" "permissions" configured_config
        ≡ some (
            string_dict
              (("*", "relay") ∷ ("example.com", "user") ∷ ("@admin:example.com", "admin") ∷ [])))
unfolding configured_config update_mautrix_signal_data edit_section edit_homeserver_section
    edit_bridge_section edit_logging_section permissions put_entry get_field set_field
update_mautrix_signal_data-configures_example =
    update_mautrix_signal_data-configures bridge config configured_config refl

-- The bridge after a first copy that found no ConfigMap.
abbrev failed_bridge : MautrixSignal
failed_bridge = record bridge {
  status = record (bridge.status) {
    state = "FAILED";
    reason = "ConfigMap input does not exist in namespace chat";
  };
}

abbrev bridge_alone : List Stored
bridge_alone = (mautrix_signal, failed_bridge) ∷ []

copy_input_mautrix_signal_config_map-stays_failed_example :
    copy_input_mautrix_signal_config_map
      (memory true)
      (record { name = "signal"; namespace = "chat" })
      bridge_alone
    ≡ (returned (some (result true 30), none), bridge_alone)
unfolding find matching input_of_mautrix_signal compute_namespace failed_input
copy_input_mautrix_signal_config_map-stays_failed_example =
    copy_input_mautrix_signal_config_map-stays_failed (memory true) (memory-IsQuiet true)
      subreconciler-IsSubreconciler (record { name = "signal"; namespace = "chat" }) failed_bridge
      bridge_alone not_found refl refl refl

config_yaml-settings_example : active (split 10 (config_yaml bridge)) ≡ bridge_settings bridge
unfolding is_line synapse_address bridge_address compute_fqdn compute_namespace
    synapse_of_mautrix_signal
config_yaml-settings_example = config_yaml-settings bridge (refl, refl, refl)
