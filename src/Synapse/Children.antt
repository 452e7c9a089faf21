-- ===== src/Synapse/Children.antt =====
-- The subreconcilers that bring the child resources of a Synapse to their desired state, and those
-- that read or edit its ConfigMap.
pub mod Keeps
pub mod Keys
pub mod Effects
use synapse_operator.Base.{◌<>◌, [], some}
use synapse_operator.Go.{new, Result, ok, err}
use synapse_operator.Kube.{NamespacedName, ConfigMap, ObjectMeta}
use synapse_operator.Api.{Synapse}
use synapse_operator.Env.{
  Kind, Obj, config_map, service, deployment, claim, service_account, role_binding,
  postgres_cluster, synapse, Env, key_of,
}
use synapse_operator.Exec.{
  Exec, ◌>>=◌, ◌>>◌, Sub, run, halt, crash, next, deref, or_requeue, try, attempt,
}
use synapse_operator.Helpers.Naming.{set_object_meta}
use synapse_operator.Helpers.Reconcile.{reconcile_resource}
use synapse_operator.Helpers.Config.{UpdateData, update_config_map, get_config_map_copy}
use synapse_operator.Synapse.Access.{
  latest_synapse, publish_status, set_failed_state, update_synapse_status,
}
use synapse_operator.Synapse.Status.{get_postgres_cluster_resource_name}
use synapse_operator.Synapse.Config.{
  config_map_for_synapse, input_config_map_key, parse_homeserver_config_map,
  update_homeserver_with_heisenbridge_infos, update_homeserver_with_mautrix_signal_infos,
  update_homeserver_with_postgresql_infos,
}
use synapse_operator.Synapse.Resources.{
  meta_for_synapse, service_for_synapse, persistent_volume_claim_for_synapse,
  service_account_for_synapse, role_binding_for_synapse,
}
use synapse_operator.Synapse.Deployment.{deployment_for_synapse}
use synapse_operator.Synapse.Postgres.{
  Check, passes, fails, panics, is_postgres_cluster_ready, postgres_cluster_for_synapse,
  config_map_for_postgres_cluster,
}

-- The metadata of the PostgresCluster and of its ConfigMap.
unfoldable pub meta_for_postgres : Synapse → ObjectMeta
unfolding set_object_meta get_postgres_cluster_resource_name
meta_for_postgres s = set_object_meta (get_postgres_cluster_resource_name s) s.meta.namespace []

module _ (E : Env) where
  -- The body that the subreconcilers of the child resources share: read the Synapse, build the
  -- desired object, and reconcile it.
  unfoldable pub reconcile_child : (k : Kind) → (Synapse → Result (Obj k)) → Sub E
  reconcile_child k desired_for req = run E do
    s ← latest_synapse E req
    desired ← or_requeue E (desired_for s)
    attempt E (reconcile_resource E k desired)

  unfoldable pub reconcile_synapse_service : Sub E
  unfolding reconcile_child
  reconcile_synapse_service =
      reconcile_child service (λ s. service_for_synapse E s (meta_for_synapse s))

  unfoldable pub reconcile_synapse_pvc : Sub E
  unfolding reconcile_child
  reconcile_synapse_pvc =
      reconcile_child claim (λ s. persistent_volume_claim_for_synapse E s (meta_for_synapse s))

  unfoldable pub reconcile_synapse_deployment : Sub E
  unfolding reconcile_child
  reconcile_synapse_deployment =
      reconcile_child deployment (λ s. deployment_for_synapse E s (meta_for_synapse s))

  unfoldable pub reconcile_synapse_service_account : Sub E
  unfolding reconcile_child
  reconcile_synapse_service_account =
      reconcile_child service_account (λ s. service_account_for_synapse E s (meta_for_synapse s))

  unfoldable pub reconcile_synapse_role_binding : Sub E
  unfolding reconcile_child
  reconcile_synapse_role_binding =
      reconcile_child role_binding (λ s. role_binding_for_synapse E s (meta_for_synapse s))

  unfoldable pub reconcile_postgres_cluster_config_map : Sub E
  unfolding reconcile_child
  reconcile_postgres_cluster_config_map =
      reconcile_child config_map (λ s. config_map_for_postgres_cluster E s (meta_for_postgres s))

  unfoldable pub reconcile_synapse_config_map : Sub E
  reconcile_synapse_config_map req = run E do
    s ← latest_synapse E req
    v ← deref s.spec.homeserver.values
    desired ← or_requeue E (config_map_for_synapse E s v (meta_for_synapse s))
    attempt E (reconcile_resource E config_map desired)

  -- `configMapForSynapseCopy`
  config_map_for_synapse_copy : Synapse → ObjectMeta → Exec E.World ConfigMap
  config_map_for_synapse_copy s object_meta = do
    ref ← deref s.spec.homeserver.config_map
    copy ← try E (get_config_map_copy E (input_config_map_key s ref) object_meta)
    m ← or_requeue E (E.set_controller_reference synapse s object_meta)
    λ w. (next (record copy { meta = m }), w)

  unfoldable pub copy_input_synapse_config_map : Sub E
  unfolding config_map_for_synapse_copy
  copy_input_synapse_config_map req = run E do
    s ← latest_synapse E req
    desired ← config_map_for_synapse_copy s (meta_for_synapse s)
    attempt E (reconcile_resource E config_map desired)

  -- The read of the user's ConfigMap. If it fails, the Synapse is set as failed, an error of that
  -- write is dropped, and the request is tried again.
  fetch_input : Synapse → NamespacedName → Exec E.World ConfigMap
  fetch_input s key w =
      let (found, w') = E.get config_map key w in
      elim found [
        | ok cm ↦ (next cm, w')
        | err e ↦
            let reason =
              "ConfigMap " <> (key.name <> (" does not exist in namespace " <> key.namespace)) in
            (halt (E.requeue_with_delay_and_error 30 (some e)), (set_failed_state E s reason w').1)
      ]

  -- `if err != nil { return subreconciler.RequeueWithDelayAndError(time.Duration(30), err) }`
  or_delay : {A : Type 0} → Result A → Exec E.World A
  or_delay (ok a) w = (next a, w)
  or_delay (err e) w = (halt (E.requeue_with_delay_and_error 30 (some e)), w)

  unfoldable pub parse_input_synapse_config_map : Sub E
  unfolding fetch_input or_delay
  parse_input_synapse_config_map req = run E do
    s ← latest_synapse E req
    ref ← deref s.spec.homeserver.config_map
    cm ← fetch_input s (input_config_map_key s ref)
    parsed ← or_delay (parse_homeserver_config_map E s cm)
    publish_status E parsed

  -- The body that the three edits of homeserver.yaml share.
  unfoldable pub edit_homeserver : (Synapse → UpdateData) → Sub E
  edit_homeserver update_data req = run E do
    s ← latest_synapse E req
    attempt E (update_config_map E (key_of synapse s) (update_data s) "homeserver.yaml")

  unfoldable pub update_synapse_config_map_for_postgres_cluster : Sub E
  unfolding edit_homeserver
  update_synapse_config_map_for_postgres_cluster =
      edit_homeserver (update_homeserver_with_postgresql_infos E)

  unfoldable pub update_synapse_config_map_for_heisenbridge : Sub E
  unfolding edit_homeserver
  update_synapse_config_map_for_heisenbridge =
      edit_homeserver (λ _. update_homeserver_with_heisenbridge_infos)

  unfoldable pub update_synapse_config_map_for_mautrix_signal : Sub E
  unfolding edit_homeserver
  update_synapse_config_map_for_mautrix_signal =
      edit_homeserver (λ _. update_homeserver_with_mautrix_signal_infos)

  not_ready : Synapse → Synapse
  not_ready s = record s {
    status = record (s.status) {
      database_connection_info = record (s.status.database_connection_info) { state = "NOT READY" };
    };
  }

  -- Wait for the PostgresCluster to be up.
  unfoldable pub await_postgres : Synapse → Check → Exec E.World (Unit {0})
  unfolding not_ready
  await_postgres s passes w = (next tt, w)
  await_postgres s panics w = (crash, w)
  await_postgres s fails w =
      let w' = (update_synapse_status E (not_ready s) w).1 in
      let e = new "postgreSQL Database not ready yet" in
      (halt (E.requeue_with_delay_and_error 5 (some e)), w')

  unfoldable pub reconcile_postgres_cluster_cr : Sub E
  unfolding await_postgres
  reconcile_postgres_cluster_cr req = run E do
    s ← latest_synapse E req
    desired ← or_requeue E (postgres_cluster_for_synapse E s (meta_for_postgres s))
    attempt E (reconcile_resource E postgres_cluster desired)
    created ← try E (
        E.get postgres_cluster
          (record { name = get_postgres_cluster_resource_name s; namespace = s.meta.namespace }))
    await_postgres s (is_postgres_cluster_ready created)
