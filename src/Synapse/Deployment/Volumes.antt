-- ===== src/Synapse/Deployment/Volumes.antt =====
-- What the containers of a pod see at a path: the volume that is mounted there.
use synapse_operator.Base.{
  String, ◌≡◌, ap, Option, none, some, true, List, [], ◌∷◌, ◌++◌, ◌==◌, arith, if◌then◌else◌,
}
use synapse_operator.Kube.{
  ObjectMeta, VolumeMount, Container, Volume, VolumeSource, from_config_map, from_claim, PodSpec,
}
use synapse_operator.Api.{Synapse, BridgeStatus}
use synapse_operator.Synapse.Deployment.{pod_for_synapse}

-- What the first volume of a name is made from.
unfoldable pub source_of : String → List Volume → Option VolumeSource
source_of name [] = none
source_of name (v ∷ vs) = if v.name == name then some v.source else source_of name vs

-- What is mounted at a path.
unfoldable pub source_at : String → List VolumeMount → List Volume → Option VolumeSource
unfolding source_of
source_at path [] vs = none
source_at path (m ∷ ms) vs =
    if m.mount_path == path then source_of m.name vs else source_at path ms vs

unfoldable pub sources_at : String → List Container → List Volume → List (Option VolumeSource)
unfolding source_at
sources_at path [] vs = []
sources_at path (c ∷ cs) vs = source_at path c.volume_mounts vs ∷ sources_at path cs vs

-- For each container of a pod, the init containers first.
unfoldable pub sources_in : String → PodSpec → List (Option VolumeSource)
unfolding sources_at
sources_in path pod = sources_at path (pod.init_containers ++ pod.containers) pod.volumes

pub data_in_pod :
    (s : Synapse) (m : ObjectMeta)
    → sources_in "/data" (pod_for_synapse s m)
      ≡ some (from_claim s.meta.name) ∷ some (from_claim s.meta.name) ∷ []
unfolding sources_in sources_at source_at source_of pod_for_synapse
data_in_pod s m = ground arith

pub homeserver_in_pod :
    (s : Synapse) (m : ObjectMeta)
    → sources_in "/data-homeserver" (pod_for_synapse s m)
      ≡ some (from_config_map m.name) ∷ some (from_config_map m.name) ∷ []
unfolding sources_in sources_at source_at source_of pod_for_synapse
homeserver_in_pod s m = ground arith

pub heisenbridge_in_pod :
    (s : Synapse) (m : ObjectMeta) (name : String)
    → s.status.bridges.heisenbridge ≡ record { enabled = true; name = name }
    → sources_in "/data-heisenbridge" (pod_for_synapse s m)
      ≡ none ∷ some (from_config_map name) ∷ []
unfolding sources_in sources_at source_at source_of pod_for_synapse
heisenbridge_in_pod s m name bridged =
    ground (
      arith,
      ap (λ (b : BridgeStatus). b.enabled) bridged,
      ap (λ (b : BridgeStatus). b.name) bridged,
    )

pub mautrix_signal_in_pod :
    (s : Synapse) (m : ObjectMeta) (name : String)
    → s.status.bridges.mautrix_signal ≡ record { enabled = true; name = name }
    → sources_in "/data-mautrixsignal" (pod_for_synapse s m) ≡ none ∷ some (from_claim name) ∷ []
unfolding sources_in sources_at source_at source_of pod_for_synapse
mautrix_signal_in_pod s m name bridged =
    ground (
      arith,
      ap (λ (b : BridgeStatus). b.enabled) bridged,
      ap (λ (b : BridgeStatus). b.name) bridged,
    )
