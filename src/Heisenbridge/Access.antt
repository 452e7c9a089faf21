-- ===== src/Heisenbridge/Access.antt =====
-- Reading the Heisenbridge being reconciled, writing its status, and telling its Synapse:
-- controllers/synapse/heisenbridge/heisenbridge_controller.go.
use synapse_operator.Base.{String, true, not, Option, none, some, [], if◌then◌else◌}
use synapse_operator.Go.{Error, Result, ok, err, pos}
use synapse_operator.Kube.{NamespacedName}
use synapse_operator.Api.{Synapse, Heisenbridge, heisenbridge_status_eq}
use synapse_operator.Env.{synapse, heisenbridge, key_of, Env, Outcome}
use synapse_operator.Exec.{Exec, ◌>>=◌, Sub, run, checked, try, attempt}
use synapse_operator.Helpers.Naming.{compute_namespace}
use synapse_operator.Synapse.Access.{update_status_of_synapse}

-- `&Heisenbridge{}`
abbrev pub empty_heisenbridge : Heisenbridge
empty_heisenbridge = record {
  meta = record { name = ""; namespace = ""; labels = []; owner_references = [] };
  spec = record {
    config_map = record { name = ""; namespace = "" };
    verbose_level = pos 0;
    synapse = record { name = ""; namespace = "" };
  };
  status = record { state = ""; reason = "" };
}

-- The Synapse that the Heisenbridge names, in its own namespace unless it names one.
unfoldable pub key_for_synapse : Heisenbridge → NamespacedName
unfolding compute_namespace
key_for_synapse h = record {
  name = h.spec.synapse.name;
  namespace = compute_namespace h.meta.namespace h.spec.synapse.namespace;
}

unfoldable pub needing_reconcile : Synapse → Synapse
needing_reconcile s = record s { status = record (s.status) { needs_reconcile = true } }

module _ (E : Env) where
  -- Fills in `h`, which stays as it is if the read fails.
  unfoldable pub get_latest_heisenbridge :
      NamespacedName → Heisenbridge → E.World → (Outcome × Heisenbridge) × E.World
  get_latest_heisenbridge req h w =
      let (found, w') = E.get heisenbridge req w in
      elim found [
        | ok latest ↦ ((E.continue_reconciling, latest), w')
        | err e ↦ ((if E.is_not_found e then E.do_not_requeue else E.requeue_with_error e, h), w')
      ]

  unfoldable pub latest_heisenbridge : NamespacedName → Exec E.World Heisenbridge
  unfolding checked get_latest_heisenbridge
  latest_heisenbridge req = checked E (get_latest_heisenbridge req empty_heisenbridge)

  unfoldable pub patch_if_other : Heisenbridge → Heisenbridge → E.World → Option Error × E.World
  patch_if_other h current w =
      if not (heisenbridge_status_eq h.status current.status)
      then E.patch_status heisenbridge h current w
      else (none, w)

  unfoldable pub update_heisenbridge_status : Heisenbridge → E.World → Option Error × E.World
  unfolding patch_if_other
  update_heisenbridge_status h w =
      let (found, w') = E.get heisenbridge (key_of heisenbridge h) w in
      elim found [ err e ↦ (some e, w') | ok current ↦ patch_if_other h current w' ]

  unfoldable pub set_heisenbridge_failed : Heisenbridge → String → E.World → Option Error × E.World
  unfolding update_heisenbridge_status
  set_heisenbridge_failed h reason w =
      update_heisenbridge_status
        (record h { status = record { state = "FAILED"; reason = reason } }) w

  unfoldable pub fetch_synapse_instance : Heisenbridge → E.World → Result Synapse × E.World
  fetch_synapse_instance h w = E.get synapse (key_for_synapse h) w

  unfoldable pub trigger_synapse_reconciliation : Sub E
  unfolding fetch_synapse_instance
  trigger_synapse_reconciliation req = run E do
    h ← latest_heisenbridge req
    s ← try E (fetch_synapse_instance h)
    attempt E (update_status_of_synapse E (needing_reconcile s))
