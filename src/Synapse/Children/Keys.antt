-- ===== src/Synapse/Children/Keys.antt =====
-- The name and namespace of the objects that are built for a Synapse: its own, or its name with
-- `-pgsql` behind it for the PostgresCluster and its ConfigMap.
use synapse_operator.Base.{◌≡◌, refl, ◌∷◌, []}
use synapse_operator.Go.{ok}
use synapse_operator.Kube.{
  ObjectMeta, NamespacedName, ConfigMap, Service, Deployment, PersistentVolumeClaim, ServiceAccount,
  RoleBinding, PostgresCluster,
}
use synapse_operator.Api.{Synapse, SynapseHomeserverValues}
use synapse_operator.Env.{
  synapse, config_map, service, deployment, claim, service_account, role_binding, postgres_cluster,
  key_of, Env, KeepsMeta,
}
use synapse_operator.Helpers.Owned.{key_of_meta, built-key}
use synapse_operator.Helpers.Naming.{set_object_meta, join}
use synapse_operator.Synapse.Status.{get_postgres_cluster_resource_name}
use synapse_operator.Synapse.Config.{config_map_for_synapse}
use synapse_operator.Synapse.Resources.{
  meta_for_synapse, service_for_synapse, persistent_volume_claim_for_synapse,
  service_account_for_synapse, role_binding_for_synapse,
}
use synapse_operator.Synapse.Deployment.{deployment_for_synapse}
use synapse_operator.Synapse.Postgres.{
  postgres_cluster_for_synapse, config_map_for_postgres_cluster,
}
use synapse_operator.Synapse.Children.{meta_for_postgres}

-- The key of the PostgresCluster of a Synapse.
unfoldable pub postgres_key : NamespacedName → NamespacedName
unfolding join
postgres_key req = record { name = join (req.name ∷ "pgsql" ∷ []) "-"; namespace = req.namespace }

pub meta_for_synapse-key : (s : Synapse) → key_of_meta (meta_for_synapse s) ≡ key_of synapse s
unfolding meta_for_synapse set_object_meta
meta_for_synapse-key s = refl

pub meta_for_postgres-key :
    (s : Synapse) → key_of_meta (meta_for_postgres s) ≡ postgres_key (key_of synapse s)
unfolding meta_for_postgres set_object_meta get_postgres_cluster_resource_name postgres_key
meta_for_postgres-key s = refl

module _ (E : Env) (K : KeepsMeta E) where
  module _ (s : Synapse) (object_meta : ObjectMeta) where
    pub service-key :
        (o : Service)
        → service_for_synapse E s object_meta ≡ ok o
        → key_of service o ≡ key_of_meta object_meta
    unfolding service_for_synapse
    service-key o made = built-key E K synapse service s _ object_meta o (λ m. refl) made

    pub claim-key :
        (o : PersistentVolumeClaim)
        → persistent_volume_claim_for_synapse E s object_meta ≡ ok o
        → key_of claim o ≡ key_of_meta object_meta
    unfolding persistent_volume_claim_for_synapse
    claim-key o made = built-key E K synapse claim s _ object_meta o (λ m. refl) made

    pub deployment-key :
        (o : Deployment)
        → deployment_for_synapse E s object_meta ≡ ok o
        → key_of deployment o ≡ key_of_meta object_meta
    unfolding deployment_for_synapse
    deployment-key o made = built-key E K synapse deployment s _ object_meta o (λ m. refl) made

    pub service_account-key :
        (o : ServiceAccount)
        → service_account_for_synapse E s object_meta ≡ ok o
        → key_of service_account o ≡ key_of_meta object_meta
    unfolding service_account_for_synapse
    service_account-key o made =
        built-key E K synapse service_account s _ object_meta o (λ m. refl) made

    pub role_binding-key :
        (o : RoleBinding)
        → role_binding_for_synapse E s object_meta ≡ ok o
        → key_of role_binding o ≡ key_of_meta object_meta
    unfolding role_binding_for_synapse
    role_binding-key o made = built-key E K synapse role_binding s _ object_meta o (λ m. refl) made

    pub postgres_cluster-key :
        (o : PostgresCluster)
        → postgres_cluster_for_synapse E s object_meta ≡ ok o
        → key_of postgres_cluster o ≡ key_of_meta object_meta
    unfolding postgres_cluster_for_synapse
    postgres_cluster-key o made =
        built-key E K synapse postgres_cluster s _ object_meta o (λ m. refl) made

    pub postgres_config_map-key :
        (o : ConfigMap)
        → config_map_for_postgres_cluster E s object_meta ≡ ok o
        → key_of config_map o ≡ key_of_meta object_meta
    unfolding config_map_for_postgres_cluster
    postgres_config_map-key o made =
        built-key E K synapse config_map s _ object_meta o (λ m. refl) made

    pub config_map-key :
        (v : SynapseHomeserverValues) (o : ConfigMap)
        → config_map_for_synapse E s v object_meta ≡ ok o
        → key_of config_map o ≡ key_of_meta object_meta
    unfolding config_map_for_synapse
    config_map-key v o made = built-key E K synapse config_map s _ object_meta o (λ m. refl) made
