-- ===== src/MautrixSignal/Resources.antt =====
-- The objects of the mautrix-signal bridge and of its signald: mautrixsignal_deployment.go,
-- mautrixsignal_service.go, mautrixsignal_pvc.go, mautrixsignal_serviceaccount.go,
-- signald_deployment.go and signald_pvc.go of controllers/synapse/mautrixsignal.
use synapse_operator.Base.{String, [], ◌∷◌, ◌*◌, if◌then◌else◌}
use synapse_operator.Go.{Result, ok, ◌>>=◌}
use synapse_operator.Kube.{
  ObjectMeta, Labels, Service, Deployment, PersistentVolumeClaim, ServiceAccount, RoleBinding,
  PodSpec, from_config_map, from_claim,
}
use synapse_operator.Api.{MautrixSignal}
use synapse_operator.Env.{mautrix_signal, Env}
use synapse_operator.Helpers.Naming.{set_object_meta, join}

unfoldable pub get_signald_resource_name : MautrixSignal → String
unfolding join
get_signald_resource_name ms = join (ms.meta.name ∷ "signald" ∷ []) "-"

unfoldable pub labels_for_mautrix_signal : String → Labels
labels_for_mautrix_signal name = ("app", "mautrix-signal") ∷ ("mautrixsignal_cr", name) ∷ []

unfoldable pub labels_for_signald : String → Labels
labels_for_signald name = ("app", "signald") ∷ ("mautrixsignal_cr", name) ∷ []

unfoldable pub meta_for_mautrix_signal : MautrixSignal → ObjectMeta
unfolding set_object_meta
meta_for_mautrix_signal ms = set_object_meta ms.meta.name ms.meta.namespace []

unfoldable pub meta_for_signald : MautrixSignal → ObjectMeta
unfolding set_object_meta
meta_for_signald ms = set_object_meta (get_signald_resource_name ms) ms.meta.namespace []

unfoldable pub mautrix_signal_pod : MautrixSignal → ObjectMeta → PodSpec
mautrix_signal_pod ms object_meta = record {
  init_containers =
      (record {
        image = "registry.access.redhat.com/ubi8/ubi-minimal:8.7";
        name = "initconfig";
        command = "bin/sh" ∷ "-c" ∷ [];
        args =
            "if [ ! -f /data/config.yaml ]; then cp /input/config.yaml /data/config.yaml; fi" ∷ [];
        env = [];
        volume_mounts =
            (record { name = "config"; mount_path = "/input" })
            ∷ (record { name = "mautrixsignal-data"; mount_path = "/data" })
            ∷ [];
        ports = [];
      })
      ∷ [];
  containers =
      (record {
        image = "dock.mau.dev/mautrix/signal:v0.4.1";
        name = "mautrix-signal";
        command = [];
        args = [];
        env = [];
        volume_mounts =
            (record { name = "signald"; mount_path = "/signald" })
            ∷ (record { name = "mautrixsignal-data"; mount_path = "/data" })
            ∷ [];
        ports = [];
      })
      ∷ [];
  volumes =
      (record { name = "config"; source = from_config_map object_meta.name })
      ∷ (record { name = "signald"; source = from_claim (get_signald_resource_name ms) })
      ∷ (record { name = "mautrixsignal-data"; source = from_claim object_meta.name })
      ∷ [];
  service_account_name = if ms.status.is_openshift then object_meta.name else "";
}

unfoldable pub signald_pod : ObjectMeta → PodSpec
signald_pod object_meta = record {
  init_containers = [];
  containers =
      (record {
        image = "docker.io/signald/signald:0.23.0";
        name = "signald";
        command = [];
        args = [];
        env = [];
        volume_mounts = (record { name = "signald"; mount_path = "/signald" }) ∷ [];
        ports = [];
      })
      ∷ [];
  volumes = (record { name = "signald"; source = from_claim object_meta.name }) ∷ [];
  service_account_name = "";
}

module _ (E : Env) where
  unfoldable pub deployment_for_mautrix_signal : MautrixSignal → ObjectMeta → Result Deployment
  unfolding labels_for_mautrix_signal mautrix_signal_pod
  deployment_for_mautrix_signal ms object_meta = do
    m ← E.set_controller_reference mautrix_signal ms object_meta
    ok (record {
      meta = m;
      replicas = 1;
      match_labels = labels_for_mautrix_signal ms.meta.name;
      pod_labels = labels_for_mautrix_signal ms.meta.name;
      pod = mautrix_signal_pod ms object_meta;
    })

  unfoldable pub deployment_for_signald : MautrixSignal → ObjectMeta → Result Deployment
  unfolding labels_for_signald signald_pod
  deployment_for_signald ms object_meta = do
    m ← E.set_controller_reference mautrix_signal ms object_meta
    ok (record {
      meta = m;
      replicas = 1;
      match_labels = labels_for_signald ms.meta.name;
      pod_labels = labels_for_signald ms.meta.name;
      pod = signald_pod object_meta;
    })

  unfoldable pub service_for_mautrix_signal : MautrixSignal → ObjectMeta → Result Service
  unfolding labels_for_mautrix_signal
  service_for_mautrix_signal ms object_meta = do
    m ← E.set_controller_reference mautrix_signal ms object_meta
    ok (record {
      meta = m;
      ports =
          (record { name = "mautrix-signal"; protocol = "TCP"; port = 29328; target_port = 29328 })
          ∷ [];
      selector = labels_for_mautrix_signal ms.meta.name;
      service_type = "ClusterIP";
    })

  -- `persistentVolumeClaimForMautrixSignal` and `persistentVolumeClaimForSignald` have one body.
  unfoldable pub claim_for_mautrix_signal :
      MautrixSignal → ObjectMeta → Result PersistentVolumeClaim
  claim_for_mautrix_signal ms object_meta = do
    m ← E.set_controller_reference mautrix_signal ms object_meta
    ok (record {
      meta = m;
      access_modes = "ReadWriteOnce" ∷ [];
      volume_mode = "Filesystem";
      storage = 5 * 1024 * 1024 * 1024;
    })

  unfoldable pub service_account_for_mautrix_signal :
      MautrixSignal → ObjectMeta → Result ServiceAccount
  service_account_for_mautrix_signal ms object_meta = do
    m ← E.set_controller_reference mautrix_signal ms object_meta
    ok (record { meta = m })

  unfoldable pub role_binding_for_mautrix_signal : MautrixSignal → ObjectMeta → Result RoleBinding
  role_binding_for_mautrix_signal ms object_meta = do
    m ← E.set_controller_reference mautrix_signal ms object_meta
    ok (record {
      meta = m;
      role_ref = record {
        api_group = "rbac.authorization.k8s.io";
        kind = "ClusterRole";
        name = "system:openshift:scc:anyuid";
      };
      subjects =
          (record {
            kind = "ServiceAccount";
            name = object_meta.name;
            namespace = object_meta.namespace;
          })
          ∷ [];
    })
