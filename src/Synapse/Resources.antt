-- ===== src/Synapse/Resources.antt =====
-- The Service, PersistentVolumeClaim, ServiceAccount and RoleBinding of a Synapse:
-- synapse_service.go, synapse_pvc.go and synapse_serviceaccount.go of controllers/synapse/synapse.
use synapse_operator.Base.{String, [], ◌∷◌, ◌*◌}
use synapse_operator.Go.{Result, ok, ◌>>=◌}
use synapse_operator.Kube.{
  ObjectMeta, Labels, Service, PersistentVolumeClaim, ServiceAccount, RoleBinding,
}
use synapse_operator.Api.{Synapse}
use synapse_operator.Env.{synapse, Env}
use synapse_operator.Helpers.Naming.{set_object_meta}

unfoldable pub labels_for_synapse : String → Labels
labels_for_synapse name = ("app", "synapse") ∷ ("synapse_cr", name) ∷ []

-- The metadata of the objects that share the name of the Synapse.
unfoldable pub meta_for_synapse : Synapse → ObjectMeta
unfolding set_object_meta
meta_for_synapse s = set_object_meta s.meta.name s.meta.namespace []

module _ (E : Env) where
  unfoldable pub service_for_synapse : Synapse → ObjectMeta → Result Service
  unfolding labels_for_synapse
  service_for_synapse s object_meta = do
    m ← E.set_controller_reference synapse s object_meta
    ok (record {
      meta = m;
      ports =
          (record { name = "synapse-unsecure"; protocol = "TCP"; port = 8008; target_port = 8008 })
          ∷ [];
      selector = labels_for_synapse s.meta.name;
      service_type = "ClusterIP";
    })

  unfoldable pub persistent_volume_claim_for_synapse :
      Synapse → ObjectMeta → Result PersistentVolumeClaim
  persistent_volume_claim_for_synapse s object_meta = do
    m ← E.set_controller_reference synapse s object_meta
    ok (record {
      meta = m;
      access_modes = "ReadWriteOnce" ∷ [];
      volume_mode = "Filesystem";
      storage = 5 * 1024 * 1024 * 1024;
    })

  unfoldable pub service_account_for_synapse : Synapse → ObjectMeta → Result ServiceAccount
  service_account_for_synapse s object_meta = do
    m ← E.set_controller_reference synapse s object_meta
    ok (record { meta = m })

  unfoldable pub role_binding_for_synapse : Synapse → ObjectMeta → Result RoleBinding
  role_binding_for_synapse s object_meta = do
    m ← E.set_controller_reference synapse s object_meta
    ok (record {
      meta = m;
      role_ref = record {
        api_group = "rbac.authorization.k8s.io";
        kind = "ClusterRole";
        name = "system:openshift:scc:anyuid";
      };
      subjects =
          (record {
            kind = "ServiceAccount";
            name = object_meta.name;
            namespace = object_meta.namespace;
          })
          ∷ [];
    })
