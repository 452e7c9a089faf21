-- ===== src/Tests/Bridges.antt =====
-- A concrete Heisenbridge and its Synapse.
use synapse_operator.Base.{◌<>◌, ◌≡◌, refl, true, none, some, List, [], ◌∷◌}
use synapse_operator.Go.{ok, pos, lookup}
use synapse_operator.Kube.{ObjectMeta, ConfigMap, Service, Deployment, from_config_map}
use synapse_operator.Api.{
  Synapse, Heisenbridge, synapse_status_eq, database_eq, homeserver_eq, bridge_eq,
}
use synapse_operator.Env.{synapse, heisenbridge}
use synapse_operator.Exec.{returned}
use synapse_operator.Helpers.Naming.{compute_fqdn, compute_namespace}
use synapse_operator.Helpers.Config.{update_config_map_data, load_yaml_file}
use synapse_operator.Synapse.Access.{empty_synapse, update_synapse_status}
use synapse_operator.Synapse.Status.{with_bridges}
use synapse_operator.Synapse.Status.Bridges.{last_heisenbridge}
use synapse_operator.Synapse.Resources.{meta_for_synapse, labels_for_synapse}
use synapse_operator.Synapse.Deployment.{pod_for_synapse, deployment_for_synapse}
use synapse_operator.Synapse.Deployment.Volumes.{sources_in}
use synapse_operator.Heisenbridge.Access.{
  key_for_synapse, needing_reconcile, trigger_synapse_reconciliation,
}
use synapse_operator.Heisenbridge.Resources.{
  craft_heisenbridge_command, heisenbridge_url, labels_for_heisenbridge, meta_for_heisenbridge,
  heisenbridge_pod, heisenbridge_yaml, service_for_heisenbridge, deployment_for_heisenbridge,
  config_map_for_heisenbridge, update_heisenbridge_with_url,
}
use synapse_operator.Heisenbridge.Command.{level_of_command, clamp, level_of_command-craft}
use synapse_operator.Heisenbridge.Controller.{HeisenbridgeStep, heisenbridge_steps}
use synapse_operator.Heisenbridge.Steps.{Ascending, includes, asked, heisenbridge_steps-Ascending}
use synapse_operator.Heisenbridge.Wiring.{
  listening, forwarded, published, heisenbridge_url-reaches_service,
  pod_for_synapse-mounts_heisenbridge,
}
use synapse_operator.Heisenbridge.Effects.{
  trigger_synapse_reconciliation-marks, PointsToService,
  update_heisenbridge_with_url-PointsToService,
}
use synapse_operator.Tests.Memory.{
  Stored, memory, subreconciler-IsSubreconciler, memory-IsQuiet, memory-KeepsMeta, find, matching,
}

abbrev irc_meta : ObjectMeta
irc_meta = record { name = "irc"; namespace = "chat"; labels = []; owner_references = [] }

abbrev owned_meta : ObjectMeta
owned_meta = record irc_meta { owner_references = (record { kind = "Synapse"; name = "irc" }) ∷ [] }

abbrev verbose : Heisenbridge
verbose = record {
  meta = irc_meta;
  spec = record {
    config_map = record { name = "input"; namespace = "" };
    verbose_level = pos 3;
    synapse = record { name = "matrix"; namespace = "" };
  };
  status = record { state = ""; reason = "" };
}

abbrev its_synapse : Synapse
its_synapse = record empty_synapse { meta = record irc_meta { name = "matrix" } }

abbrev world : List Stored
world = (synapse, its_synapse) ∷ (heisenbridge, verbose) ∷ []

level_of_command-craft_example : level_of_command (craft_heisenbridge_command verbose) ≡ 3
unfolding clamp
level_of_command-craft_example = level_of_command-craft verbose

heisenbridge_steps-Ascending_example :
    Ascending 0 (heisenbridge_steps verbose)
    × ((step : HeisenbridgeStep) → includes step (heisenbridge_steps verbose) ≡ asked verbose step)
heisenbridge_steps-Ascending_example = heisenbridge_steps-Ascending verbose

abbrev its_service : Service
its_service = record {
  meta = owned_meta;
  ports =
      (record { name = "heisenbridge"; protocol = "TCP"; port = 9898; target_port = 9898 }) ∷ [];
  selector = ("app", "heisenbridge") ∷ ("heisenbridge_cr", "irc") ∷ [];
  service_type = "ClusterIP";
}

its_deployment : Deployment
its_deployment = record {
  meta = owned_meta;
  replicas = 1;
  match_labels = labels_for_heisenbridge "irc";
  pod_labels = labels_for_heisenbridge "irc";
  pod = heisenbridge_pod verbose irc_meta;
}

heisenbridge_url-reaches_service_example :
    (its_service.selector ≡ its_deployment.pod_labels)
    × (its_deployment.match_labels ≡ its_deployment.pod_labels)
    × (listening its_deployment.pod.containers ≡ forwarded its_service.ports ∷ [])
    × (published its_service.ports ≡ 9898 ∷ [])
    × (heisenbridge_url verbose ≡ "http://" <> (compute_fqdn "irc" "chat" <> ":9898"))
unfolding its_deployment service_for_heisenbridge deployment_for_heisenbridge
    labels_for_heisenbridge meta_for_heisenbridge
heisenbridge_url-reaches_service_example =
    heisenbridge_url-reaches_service (memory true) (memory-KeepsMeta true) verbose its_service
      its_deployment refl refl

its_config_map : ConfigMap
its_config_map = record {
  meta = owned_meta;
  files = ("heisenbridge.yaml", heisenbridge_yaml verbose) ∷ [];
}

abbrev told_synapse : Synapse
told_synapse = with_bridges its_synapse (verbose ∷ []) []

homeserver_deployment : Deployment
homeserver_deployment = record {
  meta = record irc_meta {
    name = "matrix";
    owner_references = (record { kind = "Synapse"; name = "matrix" }) ∷ [];
  };
  replicas = 1;
  match_labels = labels_for_synapse "matrix";
  pod_labels = labels_for_synapse "matrix";
  pod = pod_for_synapse told_synapse (meta_for_synapse its_synapse);
}

pod_for_synapse-mounts_heisenbridge_example :
    ("chat" ≡ homeserver_deployment.meta.namespace)
    × (sources_in "/data-heisenbridge" homeserver_deployment.pod
        ≡ none ∷ some (from_config_map "irc") ∷ [])
unfolding homeserver_deployment its_config_map last_heisenbridge config_map_for_heisenbridge
    meta_for_heisenbridge deployment_for_synapse meta_for_synapse labels_for_synapse with_bridges
pod_for_synapse-mounts_heisenbridge_example =
    pod_for_synapse-mounts_heisenbridge (memory true) (memory-KeepsMeta true) verbose its_synapse
      (verbose ∷ []) [] its_config_map homeserver_deployment refl refl refl refl

trigger_synapse_reconciliation-marks_example :
    let r =
      trigger_synapse_reconciliation
        (memory true)
        (record { name = "irc"; namespace = "chat" })
        world in
    (r.0 ≡ returned (none, none))
    × (((memory true).get synapse (key_for_synapse verbose) r.1).0
        ≡ ok (record its_synapse {
          status = record (its_synapse.status) { needs_reconcile = true };
        }))
unfolding find matching update_synapse_status synapse_status_eq database_eq homeserver_eq bridge_eq
    key_for_synapse compute_namespace needing_reconcile
trigger_synapse_reconciliation-marks_example =
    trigger_synapse_reconciliation-marks (memory true) (memory-IsQuiet true)
      subreconciler-IsSubreconciler (record { name = "irc"; namespace = "chat" }) verbose
      its_synapse world refl refl refl

abbrev copied : ConfigMap
copied = record { meta = owned_meta; files = ("heisenbridge.yaml", "id: irc") ∷ [] }

abbrev pointed : ConfigMap
pointed = record { meta = owned_meta; files = ("heisenbridge.yaml", "written") ∷ [] }

update_heisenbridge_with_url-PointsToService_example :
    PointsToService (memory true) verbose copied pointed
unfolding update_config_map_data update_heisenbridge_with_url load_yaml_file lookup
update_heisenbridge_with_url-PointsToService_example =
    update_heisenbridge_with_url-PointsToService (memory true) verbose copied pointed refl
