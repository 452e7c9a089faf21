-- ===== src/Synapse/Controller/Confined.antt =====
-- What a reconciliation of a Synapse may write.
use synapse_operator.Base.{◌≡◌, refl, ap, ◌∙◌, ◌⊎◌, inl, inr, Bool-cases}
use synapse_operator.Go.{Result-cases}
use synapse_operator.Kube.{NamespacedName}
use synapse_operator.Api.{Synapse}
use synapse_operator.Env.{
  Kind, synapse, heisenbridge, mautrix_signal, config_map, secret, service, deployment, claim,
  service_account, role_binding, postgres_cluster, key_of, Env, IsKeyed, IsSubreconciler, IsMerge,
  KeepsMeta,
}
use synapse_operator.Exec.Keeps.{Rights, Respects}
use synapse_operator.Loop.Keeps.{run_all-keeps}
use synapse_operator.Synapse.Access.{empty_synapse, get_latest_synapse, set_failed_state}
use synapse_operator.Synapse.Access.Keeps.{
  get_latest_synapse-keeps, get_latest_synapse-key, update_status_of_synapse-keeps,
}
use synapse_operator.Synapse.Status.Keeps.{
  homeserver-keeps, bridges-keeps, postgres_infos-keeps, running-keeps,
}
use synapse_operator.Synapse.Resources.{meta_for_synapse}
use synapse_operator.Synapse.Children.{
  meta_for_postgres, reconcile_synapse_service, reconcile_synapse_pvc, reconcile_synapse_deployment,
  reconcile_synapse_service_account, reconcile_synapse_role_binding,
  reconcile_postgres_cluster_config_map, update_synapse_config_map_for_postgres_cluster,
  update_synapse_config_map_for_heisenbridge, update_synapse_config_map_for_mautrix_signal,
}
use synapse_operator.Synapse.Children.Keys.{
  postgres_key, meta_for_synapse-key, meta_for_postgres-key, service-key, claim-key, deployment-key,
  service_account-key, role_binding-key, postgres_config_map-key,
}
use synapse_operator.Synapse.Children.Keeps.{
  reconcile_child-keeps, edit_homeserver-keeps, config_map-keeps, copy_input-keeps,
  parse_input-keeps, postgres_cluster-keeps,
}
use synapse_operator.Synapse.Controller.{
  Step, parse_input, copy_input, set_homeserver_status, make_config_map, status_bridges,
  postgres_config_map, postgres_cr, status_postgres, config_postgres, config_heisenbridge,
  config_mautrix_signal, make_service_account, make_role_binding, make_service, make_pvc,
  make_deployment, status_running, steps_for, perform, run_steps, refuse_postgres,
  check_postgres_operator, start_steps, reconcile,
}

-- The objects of a Synapse: those that have its name, and the PostgresCluster and its ConfigMap.
abbrev pub OwnedBySynapse : NamespacedName → Kind → NamespacedName → Type 0
OwnedBySynapse req config_map n = (n ≡ req) ⊎ (n ≡ postgres_key req)
OwnedBySynapse req service n = n ≡ req
OwnedBySynapse req deployment n = n ≡ req
OwnedBySynapse req claim n = n ≡ req
OwnedBySynapse req service_account n = n ≡ req
OwnedBySynapse req role_binding n = n ≡ req
OwnedBySynapse req postgres_cluster n = n ≡ postgres_key req
OwnedBySynapse req synapse n = ⊥
OwnedBySynapse req heisenbridge n = ⊥
OwnedBySynapse req mautrix_signal n = ⊥
OwnedBySynapse req secret n = ⊥

abbrev pub StatusOfSynapse : NamespacedName → Kind → NamespacedName → Type 0
StatusOfSynapse req synapse n = n ≡ req
StatusOfSynapse req _ n = ⊥

abbrev pub synapse_rights : NamespacedName → Rights
synapse_rights req = record { write = OwnedBySynapse req; status = StatusOfSynapse req }

module _ (E : Env) (N : IsKeyed E.client) (L : IsSubreconciler E.sub) (M : IsMerge E)
    (K : KeepsMeta E) (req : NamespacedName) (P : E.World → Type 0)
    (H : Respects E.client (synapse_rights req) P) where
  perform-keeps : (step : Step) (w : E.World) → P w → P (perform E step req w).1
  unfolding perform reconcile_synapse_service reconcile_synapse_pvc reconcile_synapse_deployment
      reconcile_synapse_service_account reconcile_synapse_role_binding
      reconcile_postgres_cluster_config_map update_synapse_config_map_for_postgres_cluster
      update_synapse_config_map_for_heisenbridge update_synapse_config_map_for_mautrix_signal
  perform-keeps parse_input w = parse_input-keeps E N L M H req refl w
  perform-keeps copy_input w = copy_input-keeps E N L M H req K (inl refl) w
  perform-keeps set_homeserver_status w = homeserver-keeps E N L H req refl w
  perform-keeps make_config_map w = config_map-keeps E N L M H req K (inl refl) w
  perform-keeps status_bridges w = bridges-keeps E N L H req refl w
  perform-keeps postgres_config_map w =
      reconcile_child-keeps E N L M H req config_map _
        (λ s d asked made. inr (
          postgres_config_map-key E K s (meta_for_postgres s) d made
          ∙ (meta_for_postgres-key s ∙ ap postgres_key asked)))
        w
  perform-keeps postgres_cr w = postgres_cluster-keeps E N L M H req K refl refl w
  perform-keeps status_postgres w = postgres_infos-keeps E N L H req refl w
  perform-keeps config_postgres w = edit_homeserver-keeps E N L M H req _ (inl refl) w
  perform-keeps config_heisenbridge w = edit_homeserver-keeps E N L M H req _ (inl refl) w
  perform-keeps config_mautrix_signal w = edit_homeserver-keeps E N L M H req _ (inl refl) w
  perform-keeps make_service_account w =
      reconcile_child-keeps E N L M H req service_account _
        (λ s d asked made.
          service_account-key E K s (meta_for_synapse s) d made ∙ (meta_for_synapse-key s ∙ asked))
        w
  perform-keeps make_role_binding w =
      reconcile_child-keeps E N L M H req role_binding _
        (λ s d asked made.
          role_binding-key E K s (meta_for_synapse s) d made ∙ (meta_for_synapse-key s ∙ asked))
        w
  perform-keeps make_service w =
      reconcile_child-keeps E N L M H req service _
        (λ s d asked made.
          service-key E K s (meta_for_synapse s) d made ∙ (meta_for_synapse-key s ∙ asked))
        w
  perform-keeps make_pvc w =
      reconcile_child-keeps E N L M H req claim _
        (λ s d asked made.
          claim-key E K s (meta_for_synapse s) d made ∙ (meta_for_synapse-key s ∙ asked))
        w
  perform-keeps make_deployment w =
      reconcile_child-keeps E N L M H req deployment _
        (λ s d asked made.
          deployment-key E K s (meta_for_synapse s) d made ∙ (meta_for_synapse-key s ∙ asked))
        w
  perform-keeps status_running w = running-keeps E N L H req refl w

  run_steps-keeps : (s : Synapse) (w : E.World) → P w → P (run_steps E s req w).1
  unfolding run_steps
  run_steps-keeps s w h = run_all-keeps E req (perform E) (steps_for s) perform-keeps w h

  check_postgres_operator-keeps :
      (s : Synapse) (w : E.World)
      → key_of synapse s ≡ req
      → P w
      → P (check_postgres_operator E s req w).1
  unfolding check_postgres_operator refuse_postgres set_failed_state
  check_postgres_operator-keeps s w asked h =
      let listed = H.list_keeps postgres_cluster w h in
      elim (Result-cases (E.list_all postgres_cluster w).0) [
        | inl (clusters, found) ↦ rw (found, check_postgres_operator) (run_steps-keeps s _ listed)
        | inr (e, failed) ↦
            rw (failed, check_postgres_operator)
              (update_status_of_synapse-keeps E N L H _ asked _ listed)
      ]

  start_steps-keeps :
      (s : Synapse) (w : E.World) → key_of synapse s ≡ req → P w → P (start_steps E s req w).1
  unfolding start_steps
  start_steps-keeps s w asked h = elim (Bool-cases s.spec.create_new_postgresql) [
    | inl asks ↦ simp asks (check_postgres_operator-keeps s w asked h)
    | inr neither ↦ simp neither (run_steps-keeps s w h)
  ]

  -- However a reconciliation of a Synapse ends, panics and other clients' writes between its calls
  -- included, it creates, updates and patches no other objects than the ConfigMap, the Service, the
  -- Deployment, the claim, the ServiceAccount and the RoleBinding of the name and namespace of the
  -- request and the PostgresCluster and its ConfigMap, and of these it writes no status but that of
  -- the Synapse itself: what such writes and reads keep, the reconciliation keeps.
  pub reconcile-confined : (w : E.World) → P w → P (reconcile E req w).1
  unfolding reconcile
  reconcile-confined w h =
      let read = get_latest_synapse-keeps E N L H req empty_synapse w h in
      elim (Bool-cases (E.should_halt_or_requeue (get_latest_synapse E req empty_synapse w).0.0)) [
        | inl halts ↦ rw (halts, reconcile) read
        | inr goes_on ↦
            rw (goes_on, reconcile)
              (start_steps-keeps _ _ (get_latest_synapse-key E N L H req empty_synapse w goes_on)
                read)
      ]
