-- ===== src/Tests/Whole.antt =====
-- Whole reconciliations in memory.
use synapse_operator.Base.{◌⊎◌, map, ◌≡◌, refl, false, true, none, some, List, [], ◌∷◌, inl, inr}
use synapse_operator.Go.{ok}
use synapse_operator.Kube.{NamespacedName, Service}
use synapse_operator.Api.{Synapse, synapse_status_eq, database_eq, homeserver_eq, bridge_eq}
use synapse_operator.Env.{Kind, synapse, service, Apart}
use synapse_operator.Exec.{◌>>=◌, run, try, attempt, deref, or_requeue, checked}
use synapse_operator.Helpers.Reconcile.{reconcile_resource}
use synapse_operator.Synapse.Access.{
  empty_synapse, get_latest_synapse, latest_synapse, update_synapse_status, publish_status,
}
use synapse_operator.Synapse.Status.{
  as_running, with_homeserver_values, set_synapse_status_as_running,
  set_status_homeserver_configuration, update_synapse_status_bridges, with_bridges,
  find_heisenbridge, find_mautrix_signal,
}
use synapse_operator.Synapse.Config.{config_map_for_synapse}
use synapse_operator.Helpers.Naming.{set_object_meta}
use synapse_operator.Synapse.Resources.{
  meta_for_synapse, labels_for_synapse, service_for_synapse, persistent_volume_claim_for_synapse,
}
use synapse_operator.Synapse.Deployment.{deployment_for_synapse}
use synapse_operator.Synapse.Children.{
  reconcile_child, reconcile_synapse_config_map, reconcile_synapse_service, reconcile_synapse_pvc,
  reconcile_synapse_deployment,
}
use synapse_operator.Synapse.Controller.{
  Step, set_homeserver_status, make_config_map, status_bridges, make_service, make_pvc,
  make_deployment, status_running, perform, reconcile, steps_for, later_steps, config_steps,
}
use synapse_operator.Exec.Stays.{all_but, Stored-Respects, Respects-weaken}
use synapse_operator.Synapse.Controller.Confined.{
  OwnedBySynapse, StatusOfSynapse, synapse_rights, reconcile-confined,
}
use synapse_operator.Synapse.Controller.Deployed.{Deployed, all_steps-Deployed, reconcile-Deployed}
use synapse_operator.Loop.Outcomes.{Stopped}
use synapse_operator.Tests.Memory.{
  result, memory, find, matching, subreconciler-IsSubreconciler, memory-IsQuiet, memory-IsMerge,
  memory-KeepsMeta, all_of, collected, Stored,
}
use synapse_operator.Tests.Isolated.{memory-IsIsolated, memory-IsKeyed}

abbrev pub request : NamespacedName
request = record { name = "matrix"; namespace = "chat" }

abbrev pub running : Synapse
running = record empty_synapse {
  meta = record { name = "matrix"; namespace = "chat"; labels = []; owner_references = [] };
  spec = record (empty_synapse.spec) {
    homeserver = record {
      config_map = none;
      values = some (record { server_name = "example.com"; report_stats = true });
    };
  };
  status = record (empty_synapse.status) {
    state = "RUNNING";
    homeserver_configuration = record { server_name = "example.com"; report_stats = true };
  };
}

abbrev cluster : List Stored
cluster = (synapse, running) ∷ []

-- The cluster after a step.
abbrev after : Step → List Stored → List Stored
after step w = (perform (memory true) step request w).1

running_cluster-Deployed :
    (s : Synapse) × Deployed (memory true) request s (
      after status_running (
        after make_deployment (
          after make_pvc (
            after make_service (
              after status_bridges
                (after make_config_map (after set_homeserver_status cluster)))))))
unfolding steps_for config_steps later_steps perform set_status_homeserver_configuration run ◌>>=◌
    latest_synapse find matching deref publish_status synapse_status_eq database_eq homeserver_eq
    bridge_eq reconcile_synapse_config_map or_requeue attempt checked try reconcile_resource
    reconcile_child update_synapse_status all_of collected reconcile_synapse_service
    reconcile_synapse_pvc reconcile_synapse_deployment update_synapse_status_bridges
    set_synapse_status_as_running as_running with_homeserver_values get_latest_synapse
    config_map_for_synapse meta_for_synapse set_object_meta labels_for_synapse with_bridges
    find_heisenbridge find_mautrix_signal service_for_synapse persistent_volume_claim_for_synapse
    deployment_for_synapse
running_cluster-Deployed =
    all_steps-Deployed (memory true) (memory-IsQuiet true) (memory-IsIsolated true)
      subreconciler-IsSubreconciler (memory-IsMerge true) request running cluster _
      (
        (none, none),
        refl,
        refl,
        (
          (none, none),
          refl,
          refl,
          (
            (none, none),
            refl,
            refl,
            (
              (none, none),
              refl,
              refl,
              (
                (none, none),
                refl,
                refl,
                ((none, none), refl, refl, ((none, none), refl, refl, refl)),
              ),
            ),
          ),
        ),
      )

reconcile-Deployed_example :
    ((s : Synapse) × Deployed (memory true) request s (reconcile (memory true) request cluster).1
      × ((reconcile (memory true) request cluster).0 ≡ some (result false 0, none)))
    ⊎ Stopped
        (memory true)
        request
        (map (perform (memory true)) (steps_for running))
        cluster
        (reconcile (memory true) request cluster)
unfolding find matching
reconcile-Deployed_example =
    reconcile-Deployed (memory true) (memory-IsQuiet true) (memory-IsIsolated true)
      subreconciler-IsSubreconciler (memory-IsMerge true) request running cluster refl (inl refl)

-- A Service of the Synapse's name in another namespace.
abbrev elsewhere : NamespacedName
elsewhere = record { name = "matrix"; namespace = "games" }

abbrev their_service : Service
their_service = record {
  meta = record { name = "matrix"; namespace = "games"; labels = []; owner_references = [] };
  ports = [];
  selector = [];
  service_type = "NodePort";
}

abbrev shared_cluster : List Stored
shared_cluster = (service, their_service) ∷ (synapse, running) ∷ []

owned-Apart :
    (k : Kind) (n : NamespacedName) → OwnedBySynapse request k n → Apart service elsewhere k n
owned-Apart service n h = inr (λ same. cc)
owned-Apart _ n h = inl (λ e. cc)

status-Apart :
    (k : Kind) (n : NamespacedName) → StatusOfSynapse request k n → Apart service elsewhere k n
status-Apart service n h = absurd h
status-Apart _ n h = inl (λ e. cc)

reconcile-confined_example :
    find service elsewhere (reconcile (memory true) request shared_cluster).1 ≡ ok their_service
unfolding find matching
reconcile-confined_example =
    reconcile-confined (memory true) (memory-IsKeyed true) subreconciler-IsSubreconciler
      (memory-IsMerge true) (memory-KeepsMeta true) request
      (λ (w : List Stored). find service elsewhere w ≡ ok their_service)
      (Respects-weaken (memory true).client (synapse_rights request) (all_but service elsewhere)
        (λ (w : List Stored). find service elsewhere w ≡ ok their_service) owned-Apart status-Apart
        (Stored-Respects (memory true).client service elsewhere (ok their_service)
          (memory-IsQuiet true) (memory-IsIsolated true)))
      shared_cluster refl
