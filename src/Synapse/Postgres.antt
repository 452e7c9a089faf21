-- ===== src/Synapse/Postgres.antt =====
-- The PostgresCluster of a Synapse: `postgresClusterForSynapse`, `configMapForPostgresCluster` and
-- `isPostgresClusterReady` of controllers/synapse/synapse/synapse_postgrescluster.go.
pub mod Ready
use synapse_operator.Base.{
  ℕ, ◌*◌, String, Bool, true, false, ◌||◌, not, Option, none, some, List, [], ◌∷◌, ◌==◌, eqb,
  if◌then◌else◌,
}
use synapse_operator.Go.{Result, ok, ◌>>=◌}
use synapse_operator.Kube.{ObjectMeta, ConfigMap, InstanceSet, InstanceSetStatus, PostgresCluster}
use synapse_operator.Api.{Synapse}
use synapse_operator.Env.{synapse, Env}

-- What one instance set says of the cluster. `Replicas` nil panics.
pub data Check : Type 0 where
  passes fails panics : Check

replicas_check : Option ℕ → InstanceSetStatus → Check
replicas_check none st = panics
replicas_check (some desired) st =
    if not (eqb st.replicas desired)
      || not (eqb st.ready_replicas desired)
      || not (eqb st.updated_replicas desired)
    then fails
    else passes

-- The inner loop: the first status of the instance set's name decides; none found fails.
unfoldable pub instance_check : InstanceSet → List InstanceSetStatus → Check
unfolding replicas_check
instance_check set [] = fails
instance_check set (st ∷ statuses) =
    if st.name == set.name then replicas_check set.replicas st else instance_check set statuses

-- The outer loop: it stops at the first instance set that does not pass.
unfoldable pub all_instances_check : List InstanceSet → List InstanceSetStatus → Check
unfolding instance_check
all_instances_check [] statuses = passes
all_instances_check (set ∷ sets) statuses =
    let rest = all_instances_check sets statuses in
    elim (instance_check set statuses) [ passes ↦ rest | fails ↦ fails | panics ↦ panics ]

unfoldable pub is_postgres_cluster_ready : PostgresCluster → Check
unfolding all_instances_check
is_postgres_cluster_ready p = all_instances_check p.spec.instance_sets p.instance_statuses

module _ (E : Env) where
  unfoldable pub postgres_cluster_for_synapse : Synapse → ObjectMeta → Result PostgresCluster
  postgres_cluster_for_synapse s object_meta = do
    m ← E.set_controller_reference synapse s object_meta
    ok (record {
      meta = m;
      spec = record {
        image = "registry.developers.crunchydata.com/crunchydata/crunchy-postgres:ubi8-14.5-1";
        postgres_version = 14;
        instance_sets =
            (record {
              name = "instance1";
              replicas = none;
              access_modes = "ReadWriteOnce" ∷ [];
              storage = 1 * 1024 * 1024 * 1024;
            })
            ∷ [];
        backup_image =
            "registry.developers.crunchydata.com/crunchydata/crunchy-pgbackrest:ubi8-2.40-1";
        backup_repos =
            (record {
              name = "repo1";
              access_modes = "ReadWriteOnce" ∷ [];
              storage = 1 * 1024 * 1024 * 1024;
            })
            ∷ [];
        users = (record { name = "synapse"; databases = "dummy" ∷ [] }) ∷ [];
        init_sql_name = object_meta.name;
        init_sql_key = "createdb.sql";
      };
      instance_statuses = [];
    })

  unfoldable pub config_map_for_postgres_cluster : Synapse → ObjectMeta → Result ConfigMap
  config_map_for_postgres_cluster s object_meta = do
    m ← E.set_controller_reference synapse s object_meta
    ok (record {
      meta = m;
      files =
          (
            "createdb.sql",
            "CREATE DATABASE synapse LOCALE 'C' ENCODING 'UTF-8' TEMPLATE template0;",
          )
          ∷ [];
    })
