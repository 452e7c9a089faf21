-- ===== src/MautrixSignal/Access.antt =====
-- Reading the MautrixSignal being reconciled, writing its status, and telling its Synapse:
-- controllers/synapse/mautrixsignal/mautrixsignal_controller.go.
use synapse_operator.Base.{String, Bool, true, false, not, Option, none, some, [], if◌then◌else◌}
use synapse_operator.Go.{Error, Result, ok, err}
use synapse_operator.Kube.{NamespacedName}
use synapse_operator.Api.{Synapse, MautrixSignal, mautrix_signal_status_eq}
use synapse_operator.Env.{synapse, mautrix_signal, key_of, Env, Outcome}
use synapse_operator.Exec.{
  Exec, Flow, halt, next, ◌>>=◌, Sub, run, checked, or_requeue, try, attempt,
}
use synapse_operator.Helpers.Naming.{compute_namespace}
use synapse_operator.Synapse.Access.{get_synapse_server_name, update_status_of_synapse}
use synapse_operator.Heisenbridge.Access.{needing_reconcile}

-- `&MautrixSignal{}`
abbrev pub empty_mautrix_signal : MautrixSignal
empty_mautrix_signal = record {
  meta = record { name = ""; namespace = ""; labels = []; owner_references = [] };
  spec = record {
    config_map = record { name = ""; namespace = "" };
    synapse = record { name = ""; namespace = "" };
  };
  status = record { state = ""; reason = ""; server_name = ""; is_openshift = false };
}

-- The Synapse that the bridge names, in its own namespace unless it names one.
unfoldable pub synapse_of_mautrix_signal : MautrixSignal → NamespacedName
unfolding compute_namespace
synapse_of_mautrix_signal ms = record {
  name = ms.spec.synapse.name;
  namespace = compute_namespace ms.meta.namespace ms.spec.synapse.namespace;
}

-- What the bridge takes over from its Synapse.
unfoldable pub with_synapse_values : MautrixSignal → String → Bool → MautrixSignal
with_synapse_values ms server_name is_openshift = record ms {
  status = record (ms.status) { server_name = server_name; is_openshift = is_openshift };
}

module _ (E : Env) where
  -- Fills in `ms`, which stays as it is if the read fails.
  unfoldable pub get_latest_mautrix_signal :
      NamespacedName → MautrixSignal → E.World → (Outcome × MautrixSignal) × E.World
  get_latest_mautrix_signal req ms w =
      let (found, w') = E.get mautrix_signal req w in
      elim found [
        | err e ↦ ((if E.is_not_found e then E.do_not_requeue else E.requeue_with_error e, ms), w')
        | ok latest ↦ ((E.continue_reconciling, latest), w')
      ]

  unfoldable pub latest_mautrix_signal : NamespacedName → Exec E.World MautrixSignal
  unfolding checked get_latest_mautrix_signal
  latest_mautrix_signal req = checked E (get_latest_mautrix_signal req empty_mautrix_signal)

  -- A patch that fails returns its error and false; one that succeeds returns nil and true.
  unfoldable pub flag_patch : Option Error × E.World → (Option Error × Bool) × E.World
  flag_patch (none, w) = ((none, true), w)
  flag_patch (some e, w) = ((some e, false), w)

  unfoldable pub patch_mautrix_signal :
      MautrixSignal → MautrixSignal → E.World → (Option Error × Bool) × E.World
  unfolding flag_patch
  patch_mautrix_signal ms current w =
      if not (mautrix_signal_status_eq ms.status current.status)
      then flag_patch (E.patch_status mautrix_signal ms current w)
      else ((none, false), w)

  unfoldable pub update_mautrix_signal_status :
      MautrixSignal → E.World → (Option Error × Bool) × E.World
  unfolding patch_mautrix_signal
  update_mautrix_signal_status ms w =
      let (found, w') = E.get mautrix_signal (key_of mautrix_signal ms) w in
      elim found [ err e ↦ ((some e, false), w') | ok current ↦ patch_mautrix_signal ms current w' ]

  unfoldable pub fetch_synapse_of : MautrixSignal → E.World → Result Synapse × E.World
  fetch_synapse_of ms w = E.get synapse (synapse_of_mautrix_signal ms) w

  unfoldable pub trigger_from_mautrix_signal : Sub E
  unfolding fetch_synapse_of
  trigger_from_mautrix_signal req = run E do
    ms ← latest_mautrix_signal req
    s ← try E (fetch_synapse_of ms)
    attempt E (update_status_of_synapse E (needing_reconcile s))

  -- An error is returned, and a patch requeues.
  unfoldable pub flow_of_status : Option Error × Bool → Flow (Unit {0})
  flow_of_status (some e, patched) = halt (E.requeue_with_error e)
  flow_of_status (none, true) = halt E.requeue_now
  flow_of_status (none, false) = next tt

  unfoldable pub publish_mautrix_signal : MautrixSignal → Exec E.World (Unit {0})
  unfolding flow_of_status
  publish_mautrix_signal ms w =
      let (u, w') = update_mautrix_signal_status ms w in (flow_of_status u, w')

  unfoldable pub build_mautrix_signal_status : Sub E
  unfolding fetch_synapse_of publish_mautrix_signal
  build_mautrix_signal_status req = run E do
    ms ← latest_mautrix_signal req
    s ← try E (fetch_synapse_of ms)
    server_name ← or_requeue E (get_synapse_server_name s)
    publish_mautrix_signal (with_synapse_values ms server_name s.spec.is_openshift)
