-- ===== src/Heisenbridge/Controller.antt =====
-- The subreconcilers of a Heisenbridge and `Reconcile` of
-- controllers/synapse/heisenbridge/heisenbridge_controller.go, with the copy and the edit of its
-- ConfigMap, heisenbridge_configmap.go.
use synapse_operator.Base.{Bool, some, ◌<>◌, List, [], ◌∷◌, ◌++◌, ◌==◌, map, if◌then◌else◌}
use synapse_operator.Go.{Result, ok, err}
use synapse_operator.Kube.{NamespacedName, ConfigMap, ObjectMeta}
use synapse_operator.Api.{Heisenbridge}
use synapse_operator.Env.{Kind, Obj, heisenbridge, config_map, service, deployment, key_of, Env}
use synapse_operator.Exec.{Exec, ◌>>=◌, ◌>>◌, Sub, run, halt, next, or_requeue, try, attempt}
use synapse_operator.Loop.{Run, run_all}
use synapse_operator.Helpers.Naming.{compute_namespace}
use synapse_operator.Helpers.Reconcile.{reconcile_resource}
use synapse_operator.Helpers.Config.{update_config_map, get_config_map_copy}
use synapse_operator.Heisenbridge.Access.{
  empty_heisenbridge, get_latest_heisenbridge, latest_heisenbridge, set_heisenbridge_failed,
  trigger_synapse_reconciliation,
}
use synapse_operator.Heisenbridge.Resources.{
  meta_for_heisenbridge, update_heisenbridge_with_url, deployment_for_heisenbridge,
  service_for_heisenbridge, config_map_for_heisenbridge,
}

-- The ConfigMap that the user has named.
unfoldable pub key_for_config_map : Heisenbridge → NamespacedName
unfolding compute_namespace
key_for_config_map h = record {
  name = h.spec.config_map.name;
  namespace = compute_namespace h.meta.namespace h.spec.config_map.namespace;
}

-- The methods of the list `subreconcilersForHeisenbridge`.
pub data HeisenbridgeStep : Type 0 where
  trigger_synapse copy_input configure make_config_map make_service make_deployment :
      HeisenbridgeStep

unfoldable pub heisenbridge_config_steps : Bool → List HeisenbridgeStep
heisenbridge_config_steps no_name =
    if no_name then make_config_map ∷ [] else copy_input ∷ configure ∷ []

unfoldable pub heisenbridge_steps : Heisenbridge → List HeisenbridgeStep
heisenbridge_steps h =
    (trigger_synapse ∷ [])
    ++ (heisenbridge_config_steps (h.spec.config_map.name == "")
        ++ (make_service ∷ make_deployment ∷ []))

module _ (E : Env) where
  -- The body that the subreconcilers of the child resources share.
  unfoldable pub reconcile_heisenbridge_child : (k : Kind) → (Heisenbridge → Result (Obj k)) → Sub E
  reconcile_heisenbridge_child k desired_for req = run E do
    h ← latest_heisenbridge E req
    desired ← or_requeue E (desired_for h)
    attempt E (reconcile_resource E k desired)

  unfoldable pub reconcile_heisenbridge_config_map : Sub E
  unfolding reconcile_heisenbridge_child
  reconcile_heisenbridge_config_map =
      reconcile_heisenbridge_child config_map
        (λ h. config_map_for_heisenbridge E h (meta_for_heisenbridge h))

  unfoldable pub reconcile_heisenbridge_service : Sub E
  unfolding reconcile_heisenbridge_child
  reconcile_heisenbridge_service =
      reconcile_heisenbridge_child service
        (λ h. service_for_heisenbridge E h (meta_for_heisenbridge h))

  unfoldable pub reconcile_heisenbridge_deployment : Sub E
  unfolding reconcile_heisenbridge_child
  reconcile_heisenbridge_deployment =
      reconcile_heisenbridge_child deployment
        (λ h. deployment_for_heisenbridge E h (meta_for_heisenbridge h))

  -- The check of the user's ConfigMap. If its read fails, the Heisenbridge is set as failed, an
  -- error of that write is dropped, and the request is tried again.
  unfoldable pub check_input : Heisenbridge → Exec E.World (Unit {0})
  check_input h w =
      let key = key_for_config_map h in
      let (found, w') = E.get config_map key w in
      elim found [
        | ok cm ↦ (next tt, w')
        | err e ↦
            let reason =
              "ConfigMap " <> (key.name <> (" does not exist in namespace " <> key.namespace)) in
            (
              halt (E.requeue_with_delay_and_error 30 (some e)),
              (set_heisenbridge_failed E h reason w').1,
            )
      ]

  unfoldable pub config_map_for_heisenbridge_copy :
      Heisenbridge → ObjectMeta → Exec E.World ConfigMap
  config_map_for_heisenbridge_copy h object_meta = do
    copy ← try E (get_config_map_copy E (key_for_config_map h) object_meta)
    m ← or_requeue E (E.set_controller_reference heisenbridge h object_meta)
    λ w. (next (record copy { meta = m }), w)

  unfoldable pub copy_input_heisenbridge_config_map : Sub E
  unfolding check_input config_map_for_heisenbridge_copy
  copy_input_heisenbridge_config_map req = run E do
    h ← latest_heisenbridge E req
    check_input h
    desired ← config_map_for_heisenbridge_copy h (meta_for_heisenbridge h)
    attempt E (reconcile_resource E config_map desired)

  unfoldable pub configure_heisenbridge_config_map : Sub E
  configure_heisenbridge_config_map req = run E do
    h ← latest_heisenbridge E req
    attempt E (
        update_config_map E (key_of heisenbridge h) (update_heisenbridge_with_url h)
          "heisenbridge.yaml")

  unfoldable pub perform_heisenbridge : HeisenbridgeStep → Sub E
  perform_heisenbridge trigger_synapse = trigger_synapse_reconciliation E
  perform_heisenbridge copy_input = copy_input_heisenbridge_config_map
  perform_heisenbridge configure = configure_heisenbridge_config_map
  perform_heisenbridge make_config_map = reconcile_heisenbridge_config_map
  perform_heisenbridge make_service = reconcile_heisenbridge_service
  perform_heisenbridge make_deployment = reconcile_heisenbridge_deployment

  unfoldable pub reconcile_heisenbridge : NamespacedName → E.World → Run E
  reconcile_heisenbridge req w =
      let ((o, h), w') = get_latest_heisenbridge E req empty_heisenbridge w in
      if E.should_halt_or_requeue o
      then (some (E.evaluate o), w')
      else run_all E (map perform_heisenbridge (heisenbridge_steps h)) req w'
