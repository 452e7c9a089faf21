-- ===== src/Synapse/Access.antt =====
-- Reading the Synapse being reconciled and writing its status: `getLatestSynapse`,
-- `updateSynapseStatus` and `setFailedState` of controllers/synapse/synapse/synapse_controller.go,
-- and `UpdateSynapseStatus` and `GetSynapseServerName` of helpers/utils/bridge_utils.go.
pub mod Keeps
pub mod Publish
use synapse_operator.Base.{
  String, Bool, true, false, not, Option, none, some, [], ◌==◌, if◌then◌else◌,
}
use synapse_operator.Go.{Error, new, Result, ok, err}
use synapse_operator.Kube.{NamespacedName}
use synapse_operator.Api.{Synapse, synapse_status_eq}
use synapse_operator.Env.{synapse, key_of, Env, Outcome}
use synapse_operator.Exec.{Exec, Flow, halt, next, checked}

-- `&Synapse{}`
abbrev pub empty_synapse : Synapse
empty_synapse = record {
  meta = record { name = ""; namespace = ""; labels = []; owner_references = [] };
  spec = record {
    homeserver = record { config_map = none; values = none };
    create_new_postgresql = false;
    is_openshift = false;
  };
  status = record {
    database_connection_info = record {
      connection_url = "";
      database_name = "";
      user = "";
      password = "";
      state = "";
    };
    homeserver_configuration = record { server_name = ""; report_stats = false };
    bridges = record {
      heisenbridge = record { enabled = false; name = "" };
      mautrix_signal = record { enabled = false; name = "" };
    };
    state = "";
    reason = "";
    needs_reconcile = false;
  };
}

unfoldable pub get_synapse_server_name : Synapse → Result String
get_synapse_server_name s =
    if s.status.homeserver_configuration.server_name == ""
    then err (new "ServerName not yet populated")
    else ok s.status.homeserver_configuration.server_name

module _ (E : Env) where
  -- Fills in `s`, which stays as it is if the read fails.
  unfoldable pub get_latest_synapse :
      NamespacedName → Synapse → E.World → (Outcome × Synapse) × E.World
  get_latest_synapse req s w =
      let (found, w') = E.get synapse req w in
      elim found [
        | ok latest ↦ ((E.continue_reconciling, latest), w')
        | err e ↦ ((if E.is_not_found e then E.do_not_requeue else E.requeue_with_error e, s), w')
      ]

  -- The first statement of every subreconciler.
  unfoldable pub latest_synapse : NamespacedName → Exec E.World Synapse
  unfolding checked get_latest_synapse
  latest_synapse req = checked E (get_latest_synapse req empty_synapse)

  -- A patch that fails returns its error and false; one that succeeds returns nil and true.
  flagged : Option Error × E.World → (Option Error × Bool) × E.World
  flagged (none, w) = ((none, true), w)
  flagged (some e, w) = ((some e, false), w)

  unfoldable pub patch_if_changed : Synapse → Synapse → E.World → (Option Error × Bool) × E.World
  unfolding flagged
  patch_if_changed s current w =
      if not (synapse_status_eq s.status current.status)
      then flagged (E.patch_status synapse s current w)
      else ((none, false), w)

  unfoldable pub update_synapse_status : Synapse → E.World → (Option Error × Bool) × E.World
  unfolding patch_if_changed
  update_synapse_status s w =
      let (found, w') = E.get synapse (key_of synapse s) w in
      elim found [ err e ↦ ((some e, false), w') | ok current ↦ patch_if_changed s current w' ]

  -- `UpdateSynapseStatus` of the bridges does the same and returns the error alone.
  unfoldable pub update_status_of_synapse : Synapse → E.World → Option Error × E.World
  unfolding update_synapse_status
  update_status_of_synapse s w = let ((failure, _), w') = update_synapse_status s w in (failure, w')

  unfoldable pub set_failed_state : Synapse → String → E.World → Option Error × E.World
  unfolding update_status_of_synapse
  set_failed_state s reason w =
      update_status_of_synapse
        (record s { status = record (s.status) { state = "FAILED"; reason = reason } }) w

  -- The lines that end a subreconciler of the status: an error is returned, and a patch requeues.
  abbrev pub flow_of_update : Option Error × Bool → Flow (Unit {0})
  flow_of_update (some e, patched) = halt (E.requeue_with_error e)
  flow_of_update (none, true) = halt E.requeue_now
  flow_of_update (none, false) = next tt

  unfoldable pub publish_status : Synapse → Exec E.World (Unit {0})
  unfolding update_synapse_status
  publish_status s w = let (u, w') = update_synapse_status s w in (flow_of_update u, w')
