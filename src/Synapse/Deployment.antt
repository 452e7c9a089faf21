-- ===== src/Synapse/Deployment.antt =====
-- `deploymentForSynapse` of controllers/synapse/synapse/synapse_deployment.go.
pub mod Volumes
pub mod Wiring
use synapse_operator.Base.{String, List, [], ◌∷◌, ◌++◌, if◌then◌else◌}
use synapse_operator.Go.{Result, ok, ◌>>=◌}
use synapse_operator.Kube.{
  ObjectMeta, EnvVar, VolumeMount, Container, VolumeSource, from_config_map, from_claim, PodSpec,
  Deployment,
}
use synapse_operator.Api.{Synapse, BridgeStatus}
use synapse_operator.Env.{synapse, Env}
use synapse_operator.Helpers.Naming.{bool_to_yes_no}
use synapse_operator.Synapse.Resources.{labels_for_synapse}

abbrev pub config_path : EnvVar
config_path = record { name = "SYNAPSE_CONFIG_PATH"; value = "/data-homeserver/homeserver.yaml" }

abbrev pub synapse_mounts : List VolumeMount
synapse_mounts =
    (record { name = "homeserver"; mount_path = "/data-homeserver" })
    ∷ (record { name = "data-pv"; mount_path = "/data" })
    ∷ []

-- The pod before the bridges and OpenShift are looked at.
unfoldable pub base_pod : Synapse → ObjectMeta → PodSpec
unfolding bool_to_yes_no
base_pod s object_meta = record {
  init_containers =
      (record {
        image = "matrixdotorg/synapse:v1.71.0";
        name = "synapse-generate";
        command = [];
        args = "generate" ∷ [];
        env =
            config_path
            ∷ (record {
              name = "SYNAPSE_SERVER_NAME";
              value = s.status.homeserver_configuration.server_name;
            })
            ∷ (record {
              name = "SYNAPSE_REPORT_STATS";
              value = bool_to_yes_no s.status.homeserver_configuration.report_stats;
            })
            ∷ [];
        volume_mounts = synapse_mounts;
        ports = [];
      })
      ∷ [];
  containers =
      (record {
        image = "matrixdotorg/synapse:v1.71.0";
        name = "synapse";
        command = [];
        args = [];
        env = config_path ∷ [];
        volume_mounts = synapse_mounts;
        ports = 8008 ∷ [];
      })
      ∷ [];
  volumes =
      (record { name = "homeserver"; source = from_config_map object_meta.name })
      ∷ (record { name = "data-pv"; source = from_claim s.meta.name })
      ∷ [];
  service_account_name = "";
}

-- `Containers[0].VolumeMounts = append(…)`
mount_in_first : VolumeMount → List Container → List Container
mount_in_first m [] = []
mount_in_first m (c ∷ cs) = (record c { volume_mounts = c.volume_mounts ++ m ∷ [] }) ∷ cs

-- One volume more, mounted in the first container.
unfoldable pub with_volume : String → String → VolumeSource → PodSpec → PodSpec
unfolding mount_in_first
with_volume name mount_path source pod = record pod {
  containers = mount_in_first (record { name = name; mount_path = mount_path }) (pod.containers);
  volumes = pod.volumes ++ (record { name = name; source = source }) ∷ [];
}

unfoldable pub with_service_account : Synapse → PodSpec → PodSpec
with_service_account s pod =
    if s.spec.is_openshift then record pod { service_account_name = s.meta.name } else pod

unfoldable pub with_heisenbridge : BridgeStatus → PodSpec → PodSpec
unfolding with_volume
with_heisenbridge bridge pod =
    if bridge.enabled
    then with_volume "data-heisenbridge" "/data-heisenbridge" (from_config_map bridge.name) pod
    else pod

unfoldable pub with_mautrix_signal : BridgeStatus → PodSpec → PodSpec
unfolding with_volume
with_mautrix_signal bridge pod =
    if bridge.enabled
    then with_volume "data-mautrixsignal" "/data-mautrixsignal" (from_claim bridge.name) pod
    else pod

unfoldable pub pod_for_synapse : Synapse → ObjectMeta → PodSpec
unfolding base_pod with_service_account with_heisenbridge with_mautrix_signal
pod_for_synapse s object_meta = with_mautrix_signal s.status.bridges.mautrix_signal (
    with_heisenbridge s.status.bridges.heisenbridge
      (with_service_account s (base_pod s object_meta)))

module _ (E : Env) where
  unfoldable pub deployment_for_synapse : Synapse → ObjectMeta → Result Deployment
  unfolding labels_for_synapse pod_for_synapse
  deployment_for_synapse s object_meta = do
    m ← E.set_controller_reference synapse s object_meta
    ok (record {
      meta = m;
      replicas = 1;
      match_labels = labels_for_synapse s.meta.name;
      pod_labels = labels_for_synapse s.meta.name;
      pod = pod_for_synapse s object_meta;
    })
