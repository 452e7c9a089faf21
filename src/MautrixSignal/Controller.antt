-- ===== src/MautrixSignal/Controller.antt =====
-- The subreconcilers of a MautrixSignal and `Reconcile` of
-- controllers/synapse/mautrixsignal/mautrixsignal_controller.go.
use synapse_operator.Base.{Bool, some, ◌<>◌, List, [], ◌∷◌, ◌++◌, ◌==◌, map, if◌then◌else◌}
use synapse_operator.Go.{Result, ok, err}
use synapse_operator.Kube.{NamespacedName, ConfigMap, ObjectMeta}
use synapse_operator.Api.{MautrixSignal}
use synapse_operator.Env.{
  Kind, Obj, mautrix_signal, config_map, service, deployment, claim, service_account, role_binding,
  key_of, Env,
}
use synapse_operator.Exec.{Exec, ◌>>=◌, ◌>>◌, Sub, run, halt, next, or_requeue, try, attempt}
use synapse_operator.Loop.{Run, run_all}
use synapse_operator.Helpers.Naming.{compute_namespace}
use synapse_operator.Helpers.Reconcile.{reconcile_resource}
use synapse_operator.Helpers.Config.{update_config_map, get_config_map_copy}
use synapse_operator.MautrixSignal.Access.{
  empty_mautrix_signal, get_latest_mautrix_signal, latest_mautrix_signal,
  update_mautrix_signal_status, trigger_from_mautrix_signal, build_mautrix_signal_status,
}
use synapse_operator.MautrixSignal.Config.{
  config_map_for_mautrix_signal, update_mautrix_signal_data,
}
use synapse_operator.MautrixSignal.Resources.{
  meta_for_mautrix_signal, meta_for_signald, deployment_for_mautrix_signal, deployment_for_signald,
  service_for_mautrix_signal, claim_for_mautrix_signal, service_account_for_mautrix_signal,
  role_binding_for_mautrix_signal,
}

-- The ConfigMap that the user has named.
unfoldable pub input_of_mautrix_signal : MautrixSignal → NamespacedName
unfolding compute_namespace
input_of_mautrix_signal ms = record {
  name = ms.spec.config_map.name;
  namespace = compute_namespace ms.meta.namespace ms.spec.config_map.namespace;
}

-- The MautrixSignal that says that this ConfigMap cannot be read.
unfoldable pub failed_input : MautrixSignal → MautrixSignal
failed_input ms =
    let key = input_of_mautrix_signal ms in
    let reason = "ConfigMap " <> (key.name <> (" does not exist in namespace " <> key.namespace)) in
    record ms { status = record (ms.status) { state = "FAILED"; reason = reason } }

-- The methods of the list `subreconcilersForMautrixSignal`.
pub data MautrixSignalStep : Type 0 where
  trigger_synapse build_status copy_input configure make_config_map : MautrixSignalStep
  make_service_account make_role_binding : MautrixSignalStep
  make_signald_pvc make_signald make_service make_pvc make_deployment : MautrixSignalStep

unfoldable pub mautrix_signal_config_steps : Bool → List MautrixSignalStep
mautrix_signal_config_steps no_name =
    if no_name then make_config_map ∷ [] else copy_input ∷ configure ∷ []

unfoldable pub mautrix_signal_steps : MautrixSignal → List MautrixSignalStep
mautrix_signal_steps ms =
    (trigger_synapse ∷ build_status ∷ [])
    ++ (mautrix_signal_config_steps (ms.spec.config_map.name == "")
        ++ ((if ms.status.is_openshift then make_service_account ∷ make_role_binding ∷ [] else [])
            ++ (make_signald_pvc ∷ make_signald ∷ make_service ∷ make_pvc ∷ make_deployment ∷ [])))

module _ (E : Env) where
  -- The body that the subreconcilers of the child resources share.
  unfoldable pub reconcile_mautrix_signal_child :
      (k : Kind) → (MautrixSignal → Result (Obj k)) → Sub E
  reconcile_mautrix_signal_child k desired_for req = run E do
    ms ← latest_mautrix_signal E req
    desired ← or_requeue E (desired_for ms)
    attempt E (reconcile_resource E k desired)

  -- The read of the user's ConfigMap. If it fails, the MautrixSignal is set as failed and the
  -- request is tried again; the error that goes with that is the one of the write of the status,
  -- which shadows the one of the read.
  unfoldable pub check_mautrix_signal_input : MautrixSignal → Exec E.World (Unit {0})
  check_mautrix_signal_input ms w =
      let key = input_of_mautrix_signal ms in
      let (found, w') = E.get config_map key w in
      elim found [
        | ok cm ↦ (next tt, w')
        | err e ↦
            let ((failure, _), w'') = update_mautrix_signal_status E (failed_input ms) w' in
            (halt (E.requeue_with_delay_and_error 30 failure), w'')
      ]

  unfoldable pub config_map_for_mautrix_signal_copy :
      MautrixSignal → ObjectMeta → Exec E.World ConfigMap
  config_map_for_mautrix_signal_copy ms object_meta = do
    copy ← try E (get_config_map_copy E (input_of_mautrix_signal ms) object_meta)
    m ← or_requeue E (E.set_controller_reference mautrix_signal ms object_meta)
    λ w. (next (record copy { meta = m }), w)

  unfoldable pub copy_input_mautrix_signal_config_map : Sub E
  unfolding check_mautrix_signal_input config_map_for_mautrix_signal_copy
  copy_input_mautrix_signal_config_map req = run E do
    ms ← latest_mautrix_signal E req
    check_mautrix_signal_input ms
    desired ← config_map_for_mautrix_signal_copy ms (meta_for_mautrix_signal ms)
    attempt E (reconcile_resource E config_map desired)

  unfoldable pub configure_mautrix_signal_config_map : Sub E
  configure_mautrix_signal_config_map req = run E do
    ms ← latest_mautrix_signal E req
    attempt E (
        update_config_map E (key_of mautrix_signal ms) (update_mautrix_signal_data ms)
          "config.yaml")

  unfoldable pub reconcile_mautrix_signal_config_map : Sub E
  unfolding reconcile_mautrix_signal_child
  reconcile_mautrix_signal_config_map =
      reconcile_mautrix_signal_child config_map
        (λ ms. config_map_for_mautrix_signal E ms (meta_for_mautrix_signal ms))

  unfoldable pub reconcile_mautrix_signal_service_account : Sub E
  unfolding reconcile_mautrix_signal_child
  reconcile_mautrix_signal_service_account =
      reconcile_mautrix_signal_child service_account
        (λ ms. service_account_for_mautrix_signal E ms (meta_for_mautrix_signal ms))

  unfoldable pub reconcile_mautrix_signal_role_binding : Sub E
  unfolding reconcile_mautrix_signal_child
  reconcile_mautrix_signal_role_binding =
      reconcile_mautrix_signal_child role_binding
        (λ ms. role_binding_for_mautrix_signal E ms (meta_for_mautrix_signal ms))

  unfoldable pub reconcile_signald_pvc : Sub E
  unfolding reconcile_mautrix_signal_child
  reconcile_signald_pvc =
      reconcile_mautrix_signal_child claim
        (λ ms. claim_for_mautrix_signal E ms (meta_for_signald ms))

  unfoldable pub reconcile_signald_deployment : Sub E
  unfolding reconcile_mautrix_signal_child
  reconcile_signald_deployment =
      reconcile_mautrix_signal_child deployment
        (λ ms. deployment_for_signald E ms (meta_for_signald ms))

  unfoldable pub reconcile_mautrix_signal_service : Sub E
  unfolding reconcile_mautrix_signal_child
  reconcile_mautrix_signal_service =
      reconcile_mautrix_signal_child service
        (λ ms. service_for_mautrix_signal E ms (meta_for_mautrix_signal ms))

  unfoldable pub reconcile_mautrix_signal_pvc : Sub E
  unfolding reconcile_mautrix_signal_child
  reconcile_mautrix_signal_pvc =
      reconcile_mautrix_signal_child claim
        (λ ms. claim_for_mautrix_signal E ms (meta_for_mautrix_signal ms))

  unfoldable pub reconcile_mautrix_signal_deployment : Sub E
  unfolding reconcile_mautrix_signal_child
  reconcile_mautrix_signal_deployment =
      reconcile_mautrix_signal_child deployment
        (λ ms. deployment_for_mautrix_signal E ms (meta_for_mautrix_signal ms))

  unfoldable pub perform_mautrix_signal : MautrixSignalStep → Sub E
  perform_mautrix_signal trigger_synapse = trigger_from_mautrix_signal E
  perform_mautrix_signal build_status = build_mautrix_signal_status E
  perform_mautrix_signal copy_input = copy_input_mautrix_signal_config_map
  perform_mautrix_signal configure = configure_mautrix_signal_config_map
  perform_mautrix_signal make_config_map = reconcile_mautrix_signal_config_map
  perform_mautrix_signal make_service_account = reconcile_mautrix_signal_service_account
  perform_mautrix_signal make_role_binding = reconcile_mautrix_signal_role_binding
  perform_mautrix_signal make_signald_pvc = reconcile_signald_pvc
  perform_mautrix_signal make_signald = reconcile_signald_deployment
  perform_mautrix_signal make_service = reconcile_mautrix_signal_service
  perform_mautrix_signal make_pvc = reconcile_mautrix_signal_pvc
  perform_mautrix_signal make_deployment = reconcile_mautrix_signal_deployment

  unfoldable pub reconcile_mautrix_signal : NamespacedName → E.World → Run E
  reconcile_mautrix_signal req w =
      let ((o, ms), w') = get_latest_mautrix_signal E req empty_mautrix_signal w in
      if E.should_halt_or_requeue o
      then (some (E.evaluate o), w')
      else run_all E (map perform_mautrix_signal (mautrix_signal_steps ms)) req w'
