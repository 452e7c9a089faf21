-- ===== src/Tests/Runs.antt =====
-- Concrete runs of the operator in memory: each applies a theorem to a cluster given in full.
use synapse_operator.Base.{◌≡◌, refl, true, false, none, some, [], ◌∷◌}
use synapse_operator.Go.{ok, external}
use synapse_operator.Kube.{NamespacedName, Service, ObjectMeta}
use synapse_operator.Api.{Synapse, synapse_status_eq, database_eq, homeserver_eq, bridge_eq}
use synapse_operator.Env.{synapse, service, key_of}
use synapse_operator.Exec.{Sub, returned}
use synapse_operator.Loop.{run_all}
use synapse_operator.Loop.Outcomes.{Ends, run_all-Ends}
use synapse_operator.Helpers.Reconcile.{reconcile_resource}
use synapse_operator.Helpers.Reconcile.Effects.{Reconciled, reconcile_resource-Reconciled}
use synapse_operator.Synapse.Access.{empty_synapse, update_synapse_status}
use synapse_operator.Synapse.Access.Publish.{Updated, update_synapse_status-Updated}
use synapse_operator.Synapse.Status.{
  as_running, with_homeserver_values, set_synapse_status_as_running,
  set_status_homeserver_configuration,
}
use synapse_operator.Synapse.Status.Converge.{running_converges, homeserver_status_converges}
use synapse_operator.Synapse.Controller.{reconcile}
use synapse_operator.Synapse.Controller.Endings.{reconcile_without_operator}
use synapse_operator.Tests.Memory.{
  memory, subreconciler, find, matching, result, not_found, subreconciler-IsSubreconciler,
  memory-IsQuiet, memory-IsMerge,
}

abbrev here : ObjectMeta
here = record { name = "matrix"; namespace = "chat"; labels = []; owner_references = [] }

abbrev request : NamespacedName
request = record { name = "matrix"; namespace = "chat" }

-- A Synapse with neither a ConfigMap nor values.
abbrev unconfigured : Synapse
unconfigured = record empty_synapse { meta = here }

abbrev with_values : Synapse
with_values = record unconfigured {
  spec = record (unconfigured.spec) {
    homeserver = record {
      config_map = none;
      values = some (record { server_name = "example.com"; report_stats = true });
    };
  };
}

abbrev with_postgresql : Synapse
with_postgresql = record with_values {
  spec = record (with_values.spec) { create_new_postgresql = true };
}

abbrev old_service : Service
old_service = record { meta = here; ports = []; selector = []; service_type = "NodePort" }

abbrev new_service : Service
new_service = record {
  meta = here;
  ports = [];
  selector = ("app", "synapse") ∷ [];
  service_type = "ClusterIP";
}

-- A subreconciler that goes on, and one that fails.
abbrev goes_on : Sub (memory true)
goes_on req w = (returned (none, none), w)

abbrev fails_once : Sub (memory true)
fails_once req w = (returned (subreconciler.requeue_with_error not_found), [])

run_all-Ends_example :
    Ends
      (memory true)
      request
      (goes_on ∷ fails_once ∷ goes_on ∷ [])
      ((synapse, with_values) ∷ [])
      (some (result true 0, some not_found), [])
unfolding run_all
run_all-Ends_example =
    run_all-Ends (memory true) request (goes_on ∷ fails_once ∷ goes_on ∷ [])
      ((synapse, with_values) ∷ [])

reconcile_resource-Reconciled_example :
    Reconciled
      (memory true)
      service
      new_service
      (ok old_service)
      ((memory true).get service
        (key_of service new_service)
        (reconcile_resource (memory true) service new_service ((service, old_service) ∷ [])).1).0
unfolding reconcile_resource find matching
reconcile_resource-Reconciled_example =
    reconcile_resource-Reconciled (memory true) (memory-IsQuiet true) (memory-IsMerge true) service
      new_service ((service, old_service) ∷ []) refl

update_synapse_status-Updated_example :
    Updated
      (memory true)
      (memory-IsQuiet true)
      (as_running with_values)
      with_values
      (update_synapse_status (memory true) (as_running with_values) ((synapse, with_values) ∷ []))
unfolding update_synapse_status find matching as_running synapse_status_eq database_eq homeserver_eq
    bridge_eq
update_synapse_status-Updated_example =
    update_synapse_status-Updated (memory true) (memory-IsQuiet true) (as_running with_values)
      with_values ((synapse, with_values) ∷ []) refl refl

running_converges_example :
    let w' =
      (set_synapse_status_as_running (memory true) request ((synapse, with_values) ∷ [])).1 in
    (((memory true).get synapse request w').0 ≡ ok (as_running with_values))
    × (set_synapse_status_as_running (memory true) request w' ≡ (returned (none, none), w'))
unfolding find matching as_running update_synapse_status synapse_status_eq database_eq homeserver_eq
    bridge_eq
running_converges_example =
    running_converges (memory true) (memory-IsQuiet true) subreconciler-IsSubreconciler request
      with_values ((synapse, with_values) ∷ []) refl refl

homeserver_status_converges_example :
    let c =
      with_homeserver_values with_values
        (record { server_name = "example.com"; report_stats = true }) in
    let w' =
      (set_status_homeserver_configuration (memory true) request ((synapse, with_values) ∷ [])).1 in
    (((memory true).get synapse request w').0 ≡ ok c)
    × (set_status_homeserver_configuration (memory true) request w' ≡ (returned (none, none), w'))
unfolding find matching with_homeserver_values update_synapse_status synapse_status_eq database_eq
    homeserver_eq bridge_eq
homeserver_status_converges_example =
    homeserver_status_converges (memory true) (memory-IsQuiet true) subreconciler-IsSubreconciler
      request with_values ((synapse, with_values) ∷ [])
      (record { server_name = "example.com"; report_stats = true }) refl refl refl

reconcile_without_operator_example :
    let r = reconcile (memory false) request ((synapse, with_postgresql) ∷ []) in
    (r.0 ≡ some (result false 0, none))
    × (((memory false).get synapse request r.1).0
        ≡ ok (record with_postgresql {
          status = record (with_postgresql.status) {
            state = "FAILED";
            reason =
                "Cannot create PostgreSQL instance for synapse. Postgres-operator is not installed.";
          };
        }))
unfolding find matching update_synapse_status synapse_status_eq database_eq homeserver_eq bridge_eq
reconcile_without_operator_example =
    reconcile_without_operator (memory false) (memory-IsQuiet false) subreconciler-IsSubreconciler
      request ((synapse, with_postgresql) ∷ []) with_postgresql refl (external "no match for kind")
      refl refl refl
