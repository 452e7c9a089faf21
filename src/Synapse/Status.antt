-- ===== src/Synapse/Status.antt =====
-- The subreconcilers of controllers/synapse/synapse/synapse_controller.go that write the status:
-- `setStatusHomeserverConfiguration`, `updateSynapseStatusBridges`,
-- `updateSynapseStatusWithPostgreSQLInfos` and `setSynapseStatusAsRunning`.
pub mod Keeps
pub mod Bridges
pub mod Converge
use synapse_operator.Base.{String, ◌<>◌, true, false, List, [], ◌∷◌, ◌==◌, if◌then◌else◌}
use synapse_operator.Go.{Result, ok, err}
use synapse_operator.Kube.{NamespacedName}
use synapse_operator.Api.{
  Synapse, SynapseHomeserverValues, Heisenbridge, MautrixSignal, BridgeStatus,
}
use synapse_operator.Env.{secret, heisenbridge, mautrix_signal, Env}
use synapse_operator.Exec.{Exec, ◌>>=◌, Sub, run, next, deref, try, or_requeue}
use synapse_operator.Synapse.Database.{update_synapse_status_database}
use synapse_operator.Synapse.Access.{latest_synapse, publish_status}

-- `GetPostgresClusterResourceName`
unfoldable pub get_postgres_cluster_resource_name : Synapse → String
get_postgres_cluster_resource_name s = s.meta.name <> "-pgsql"

unfoldable pub with_homeserver_values : Synapse → SynapseHomeserverValues → Synapse
with_homeserver_values s v = record s {
  status = record (s.status) {
    homeserver_configuration = record {
      server_name = v.server_name;
      report_stats = v.report_stats;
    };
  };
}

-- The loops over the bridges: the last one that names this Synapse is kept.
unfoldable pub find_heisenbridge : String → List Heisenbridge → BridgeStatus → BridgeStatus
find_heisenbridge name [] found = found
find_heisenbridge name (h ∷ items) found =
    find_heisenbridge name items
      (if h.spec.synapse.name == name then record { enabled = true; name = h.meta.name } else found)

unfoldable pub find_mautrix_signal : String → List MautrixSignal → BridgeStatus → BridgeStatus
find_mautrix_signal name [] found = found
find_mautrix_signal name (ms ∷ items) found =
    find_mautrix_signal name items (
      if ms.spec.synapse.name == name
      then record { enabled = true; name = ms.meta.name }
      else found)

unfoldable pub with_bridges : Synapse → List Heisenbridge → List MautrixSignal → Synapse
with_bridges s hs ms = record s {
  status = record (s.status) {
    bridges = record {
      heisenbridge = find_heisenbridge s.meta.name hs s.status.bridges.heisenbridge;
      mautrix_signal = find_mautrix_signal s.meta.name ms s.status.bridges.mautrix_signal;
    };
  };
}

unfoldable pub as_running : Synapse → Synapse
as_running s = record s {
  status = record (s.status) { needs_reconcile = false; state = "RUNNING"; reason = "" };
}

-- A list call whose error is dropped: the items stay empty.
abbrev pub items_of {ℓ} : {A : Type ℓ} → Result (List A) → List A
items_of (ok items) = items
items_of (err e) = []

module _ (E : Env) where
  unfoldable pub set_status_homeserver_configuration : Sub E
  unfolding with_homeserver_values
  set_status_homeserver_configuration req = run E do
    s ← latest_synapse E req
    v ← deref s.spec.homeserver.values
    publish_status E (with_homeserver_values s v)

  list_bridges : Synapse → Exec E.World Synapse
  list_bridges s w =
      let (hs, w') = E.list_all heisenbridge w in
      let (ms, w'') = E.list_all mautrix_signal w' in
      (next (with_bridges s (items_of hs) (items_of ms)), w'')

  unfoldable pub update_synapse_status_bridges : Sub E
  unfolding list_bridges
  update_synapse_status_bridges req =
      run E do s ← latest_synapse E req; updated ← list_bridges s; publish_status E updated

  unfoldable pub postgres_secret_key : Synapse → NamespacedName
  postgres_secret_key s = record {
    name = get_postgres_cluster_resource_name s <> "-pguser-synapse";
    namespace = s.meta.namespace;
  }

  unfoldable pub update_synapse_status_with_postgresql_infos : Sub E
  unfolding postgres_secret_key
  update_synapse_status_with_postgresql_infos req = run E do
    s ← latest_synapse E req
    postgres_secret ← try E (E.get secret (postgres_secret_key s))
    updated ← or_requeue E (update_synapse_status_database s postgres_secret)
    publish_status E updated

  unfoldable pub set_synapse_status_as_running : Sub E
  set_synapse_status_as_running req =
      run E do s ← latest_synapse E req; publish_status E (as_running s)
