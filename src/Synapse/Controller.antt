-- ===== src/Synapse/Controller.antt =====
-- `Reconcile` of controllers/synapse/synapse/synapse_controller.go: which subreconcilers run for a
-- Synapse, in which order, and how their results end the reconciliation.
pub mod Deployed
pub mod EndState
pub mod Confined
pub mod Endings
pub mod Steps
use synapse_operator.Base.{
  String, Bool, Option, none, some, List, [], ◌∷◌, ◌++◌, map, if◌then◌else◌,
}
use synapse_operator.Go.{ok, err}
use synapse_operator.Kube.{NamespacedName}
use synapse_operator.Api.{Synapse, ObjectRef}
use synapse_operator.Env.{postgres_cluster, Env}
use synapse_operator.Exec.{Sub}
use synapse_operator.Loop.{Run, run_all}
use synapse_operator.Synapse.Access.{empty_synapse, get_latest_synapse, set_failed_state}
use synapse_operator.Synapse.Status.{
  set_status_homeserver_configuration, update_synapse_status_bridges,
  update_synapse_status_with_postgresql_infos, set_synapse_status_as_running,
}
use synapse_operator.Synapse.Children.{
  reconcile_synapse_service, reconcile_synapse_pvc, reconcile_synapse_deployment,
  reconcile_synapse_service_account, reconcile_synapse_role_binding, reconcile_synapse_config_map,
  reconcile_postgres_cluster_config_map, reconcile_postgres_cluster_cr,
  copy_input_synapse_config_map, parse_input_synapse_config_map,
  update_synapse_config_map_for_postgres_cluster, update_synapse_config_map_for_heisenbridge,
  update_synapse_config_map_for_mautrix_signal,
}

-- The methods of the list `subreconcilersForSynapse`.
pub data Step : Type 0 where
  parse_input copy_input set_homeserver_status make_config_map status_bridges : Step
  postgres_config_map postgres_cr status_postgres config_postgres : Step
  config_heisenbridge config_mautrix_signal : Step
  make_service_account make_role_binding make_service make_pvc make_deployment : Step
  status_running : Step

when : Bool → List Step → List Step
when b steps = if b then steps else []

-- The user gave a ConfigMap, or values.
unfoldable pub config_steps : Option ObjectRef → List Step
config_steps (some ref) = parse_input ∷ copy_input ∷ []
config_steps none = set_homeserver_status ∷ make_config_map ∷ []

unfoldable pub later_steps : Synapse → List Step
unfolding when
later_steps s =
    (status_bridges ∷ [])
    ++ (when s.spec.create_new_postgresql
          (postgres_config_map ∷ postgres_cr ∷ status_postgres ∷ config_postgres ∷ [])
        ++ (when s.status.bridges.heisenbridge.enabled (config_heisenbridge ∷ [])
            ++ (when s.status.bridges.mautrix_signal.enabled (config_mautrix_signal ∷ [])
                ++ (when s.spec.is_openshift (make_service_account ∷ make_role_binding ∷ [])
                    ++ (make_service ∷ make_pvc ∷ make_deployment ∷ status_running ∷ [])))))

unfoldable pub steps_for : Synapse → List Step
steps_for s = config_steps s.spec.homeserver.config_map ++ later_steps s

module _ (E : Env) where
  unfoldable pub perform : Step → Sub E
  perform parse_input = parse_input_synapse_config_map E
  perform copy_input = copy_input_synapse_config_map E
  perform set_homeserver_status = set_status_homeserver_configuration E
  perform make_config_map = reconcile_synapse_config_map E
  perform status_bridges = update_synapse_status_bridges E
  perform postgres_config_map = reconcile_postgres_cluster_config_map E
  perform postgres_cr = reconcile_postgres_cluster_cr E
  perform status_postgres = update_synapse_status_with_postgresql_infos E
  perform config_postgres = update_synapse_config_map_for_postgres_cluster E
  perform config_heisenbridge = update_synapse_config_map_for_heisenbridge E
  perform config_mautrix_signal = update_synapse_config_map_for_mautrix_signal E
  perform make_service_account = reconcile_synapse_service_account E
  perform make_role_binding = reconcile_synapse_role_binding E
  perform make_service = reconcile_synapse_service E
  perform make_pvc = reconcile_synapse_pvc E
  perform make_deployment = reconcile_synapse_deployment E
  perform status_running = set_synapse_status_as_running E

  -- The steps of a Synapse, run in order.
  unfoldable pub run_steps : Synapse → NamespacedName → E.World → Run E
  run_steps s = run_all E (map perform (steps_for s))

  abbrev pub no_operator : String
  no_operator = "Cannot create PostgreSQL instance for synapse. Postgres-operator is not installed."

  -- `setFailedState` drops the error of its write, and nothing is requeued.
  unfoldable pub refuse_postgres : Synapse → E.World → Run E
  refuse_postgres s w = (some (E.evaluate E.do_not_requeue), (set_failed_state E s no_operator w).1)

  -- `isPostgresOperatorInstalled` is a list call that succeeds.
  unfoldable pub check_postgres_operator : Synapse → NamespacedName → E.World → Run E
  unfolding refuse_postgres
  check_postgres_operator s req w =
      let (found, w') = E.list_all postgres_cluster w in
      elim found [ ok clusters ↦ run_steps s req w' | err e ↦ refuse_postgres s w' ]

  unfoldable pub start_steps : Synapse → NamespacedName → E.World → Run E
  start_steps s req w =
      if s.spec.create_new_postgresql then check_postgres_operator s req w else run_steps s req w

  unfoldable pub reconcile : NamespacedName → E.World → Run E
  reconcile req w =
      let ((o, s), w') = get_latest_synapse E req empty_synapse w in
      if E.should_halt_or_requeue o then (some (E.evaluate o), w') else start_steps s req w'
