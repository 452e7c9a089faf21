-- ===== src/MautrixSignal/Confined.antt =====
-- What a reconciliation of a MautrixSignal may write.
use synapse_operator.Base.{◌≡◌, refl, ap, ◌∙◌, ◌⊎◌, inl, inr, Bool-cases, [], ◌∷◌}
use synapse_operator.Go.{Result, ok, Result-cases, ◌>>=◌}
use synapse_operator.Kube.{NamespacedName, ObjectMeta}
use synapse_operator.Api.{MautrixSignal}
use synapse_operator.Env.{
  Kind, Obj, synapse, mautrix_signal, config_map, service, deployment, claim, service_account,
  role_binding, key_of, meta_of, Env, IsKeyed, IsSubreconciler, IsMerge, KeepsMeta,
}
use synapse_operator.Exec.Keeps.{Rights, Respects, Keeps, Any, Keeps-bind, Keeps-run, Keeps-attempt}
use synapse_operator.Loop.Keeps.{run_all-keeps}
use synapse_operator.Helpers.Naming.{set_object_meta, join}
use synapse_operator.Helpers.Reconcile.{reconcile_resource}
use synapse_operator.Helpers.Reconcile.Keeps.{reconcile_resource-keeps}
use synapse_operator.Helpers.Owned.{key_of_meta, built-key}
use synapse_operator.Helpers.Owned.Bodies.{Keeps-child, Keeps-edit, Keeps-copy}
use synapse_operator.MautrixSignal.Access.{
  empty_mautrix_signal, get_latest_mautrix_signal, latest_mautrix_signal,
}
use synapse_operator.MautrixSignal.Keeps.{
  get_latest_mautrix_signal-keeps, Keeps-latest_mautrix_signal, update_mautrix_signal_status-keeps,
  trigger-keeps, build_status-keeps,
}
use synapse_operator.MautrixSignal.Config.{
  config_map_for_mautrix_signal, update_mautrix_signal_data,
}
use synapse_operator.MautrixSignal.Resources.{
  get_signald_resource_name, meta_for_mautrix_signal, meta_for_signald,
  deployment_for_mautrix_signal, deployment_for_signald, service_for_mautrix_signal,
  claim_for_mautrix_signal, service_account_for_mautrix_signal, role_binding_for_mautrix_signal,
}
use synapse_operator.MautrixSignal.Controller.{
  input_of_mautrix_signal, failed_input, MautrixSignalStep, trigger_synapse, build_status,
  copy_input, configure, make_config_map, make_service_account, make_role_binding, make_signald_pvc,
  make_signald, make_service, make_pvc, make_deployment, mautrix_signal_steps,
  reconcile_mautrix_signal_child, check_mautrix_signal_input, config_map_for_mautrix_signal_copy,
  copy_input_mautrix_signal_config_map, configure_mautrix_signal_config_map,
  reconcile_mautrix_signal_config_map, reconcile_mautrix_signal_service_account,
  reconcile_mautrix_signal_role_binding, reconcile_signald_pvc, reconcile_signald_deployment,
  reconcile_mautrix_signal_service, reconcile_mautrix_signal_pvc,
  reconcile_mautrix_signal_deployment, perform_mautrix_signal, reconcile_mautrix_signal,
}

-- The key of signald's Deployment and claim.
unfoldable pub signald_key : NamespacedName → NamespacedName
unfolding join
signald_key req = record { name = join (req.name ∷ "signald" ∷ []) "-"; namespace = req.namespace }

-- The objects of the bridge's name, signald's, its status, and the statuses of Synapses, one of
-- which it marks.
abbrev pub OwnedByMautrixSignal : NamespacedName → Kind → NamespacedName → Type 0
OwnedByMautrixSignal req config_map n = n ≡ req
OwnedByMautrixSignal req service n = n ≡ req
OwnedByMautrixSignal req service_account n = n ≡ req
OwnedByMautrixSignal req role_binding n = n ≡ req
OwnedByMautrixSignal req deployment n = (n ≡ req) ⊎ (n ≡ signald_key req)
OwnedByMautrixSignal req claim n = (n ≡ req) ⊎ (n ≡ signald_key req)
OwnedByMautrixSignal req _ n = ⊥

abbrev pub StatusOfMautrixSignal : NamespacedName → Kind → NamespacedName → Type 0
StatusOfMautrixSignal req mautrix_signal n = n ≡ req
StatusOfMautrixSignal req synapse n = Unit
StatusOfMautrixSignal req _ n = ⊥

abbrev pub mautrix_signal_rights : NamespacedName → Rights
mautrix_signal_rights req = record {
  write = OwnedByMautrixSignal req;
  status = StatusOfMautrixSignal req;
}

meta_for_mautrix_signal-key :
    (b : MautrixSignal) → key_of_meta (meta_for_mautrix_signal b) ≡ key_of mautrix_signal b
unfolding meta_for_mautrix_signal set_object_meta
meta_for_mautrix_signal-key b = refl

meta_for_signald-key :
    (b : MautrixSignal) → key_of_meta (meta_for_signald b) ≡ signald_key (key_of mautrix_signal b)
unfolding meta_for_signald set_object_meta signald_key get_signald_resource_name
meta_for_signald-key b = refl

module _ (E : Env) (N : IsKeyed E.client) (L : IsSubreconciler E.sub) (M : IsMerge E)
    (K : KeepsMeta E) (req : NamespacedName) (P : E.World → Type 0)
    (H : Respects E.client (mautrix_signal_rights req) P) where
  module _ (k : Kind) (b : MautrixSignal) (build : ObjectMeta → Obj k) (d : Obj k)
      (same : (m : ObjectMeta) → meta_of k (build m) ≡ m)
      (asked : key_of mautrix_signal b ≡ req) where
    -- An object of the bridge's metadata has the key of the request.
    asked-key :
        (E.set_controller_reference mautrix_signal b (meta_for_mautrix_signal b) >>= λ m.
        ok (build m))
          ≡ ok d
        → key_of k d ≡ req
    asked-key made =
        built-key E K mautrix_signal k b build (meta_for_mautrix_signal b) d same made
        ∙ (meta_for_mautrix_signal-key b ∙ asked)

    asked_signald-key :
        (E.set_controller_reference mautrix_signal b (meta_for_signald b) >>= λ m. ok (build m))
          ≡ ok d
        → key_of k d ≡ signald_key req
    asked_signald-key made =
        built-key E K mautrix_signal k b build (meta_for_signald b) d same made
        ∙ (meta_for_signald-key b ∙ ap signald_key asked)

  check_input-Keeps :
      (b : MautrixSignal)
      → key_of mautrix_signal b ≡ req
      → Keeps P Any (check_mautrix_signal_input E b)
  unfolding check_mautrix_signal_input failed_input
  check_input-Keeps b asked = record {
    at = λ w h.
        let key = input_of_mautrix_signal b in
        let read = H.get_keeps config_map key w h in
        elim (Result-cases (E.get config_map key w).0) [
          | inl (cm, found) ↦ rw (found, check_mautrix_signal_input) (read, tt)
          | inr (e, failed) ↦
              rw (failed, check_mautrix_signal_input)
                (
                  update_mautrix_signal_status-keeps E N L H (failed_input b)
                      (E.get config_map key w).1 asked read,
                  tt,
                )
        ];
  }

  copy_input-keeps : (w : E.World) → P w → P (copy_input_mautrix_signal_config_map E req w).1
  unfolding copy_input_mautrix_signal_config_map config_map_for_mautrix_signal_copy
  copy_input-keeps w = Keeps-run E _ w (
      Keeps-bind (latest_mautrix_signal E req) _ (Keeps-latest_mautrix_signal E N L H req)
        (λ b asked.
          Keeps-bind (check_mautrix_signal_input E b) _ (check_input-Keeps b asked) (λ _ _.
            Keeps-bind (config_map_for_mautrix_signal_copy E b (meta_for_mautrix_signal b)) _
              (Keeps-copy E K H mautrix_signal b (input_of_mautrix_signal b)
                (meta_for_mautrix_signal b))
              (λ d same. Keeps-attempt E (reconcile_resource E config_map d) (
                reconcile_resource-keeps E N M H config_map d
                  (same ∙ (meta_for_mautrix_signal-key b ∙ asked)))))))

  -- A subreconciler of a child resource that builds only what may be written.
  child-keeps :
      (k : Kind) (desired_for : MautrixSignal → Result (Obj k))
      → ((b : MautrixSignal) (d : Obj k)
          → key_of mautrix_signal b ≡ req
          → desired_for b ≡ ok d
          → OwnedByMautrixSignal req k (key_of k d))
      → (w : E.World) → P w
      → P (reconcile_mautrix_signal_child E k desired_for req w).1
  unfolding reconcile_mautrix_signal_child
  child-keeps k desired_for allowed w = Keeps-run E _ w (
      Keeps-child E N M H mautrix_signal (latest_mautrix_signal E req) req
        (Keeps-latest_mautrix_signal E N L H req) k desired_for allowed)

  perform_mautrix_signal-keeps :
      (step : MautrixSignalStep) (w : E.World) → P w → P (perform_mautrix_signal E step req w).1
  unfolding perform_mautrix_signal reconcile_mautrix_signal_config_map
      reconcile_mautrix_signal_service_account reconcile_mautrix_signal_role_binding
      reconcile_signald_pvc reconcile_signald_deployment reconcile_mautrix_signal_service
      reconcile_mautrix_signal_pvc reconcile_mautrix_signal_deployment
      configure_mautrix_signal_config_map config_map_for_mautrix_signal
      deployment_for_mautrix_signal deployment_for_signald service_for_mautrix_signal
      claim_for_mautrix_signal service_account_for_mautrix_signal role_binding_for_mautrix_signal
  perform_mautrix_signal-keeps trigger_synapse w = trigger-keeps E N L H req (λ n. tt) w
  perform_mautrix_signal-keeps build_status w = build_status-keeps E N L H req refl w
  perform_mautrix_signal-keeps copy_input w = copy_input-keeps w
  perform_mautrix_signal-keeps configure w = Keeps-run E _ w (
      Keeps-edit E N H mautrix_signal (latest_mautrix_signal E req) req
        (Keeps-latest_mautrix_signal E N L H req) update_mautrix_signal_data "config.yaml" refl)
  perform_mautrix_signal-keeps make_config_map w =
      child-keeps config_map _ (λ b d asked made. asked-key config_map b _ d (λ m. refl) asked made)
        w
  perform_mautrix_signal-keeps make_service_account w =
      child-keeps service_account _
        (λ b d asked made. asked-key service_account b _ d (λ m. refl) asked made) w
  perform_mautrix_signal-keeps make_role_binding w =
      child-keeps role_binding _
        (λ b d asked made. asked-key role_binding b _ d (λ m. refl) asked made) w
  perform_mautrix_signal-keeps make_signald_pvc w =
      child-keeps claim _
        (λ b d asked made. inr (asked_signald-key claim b _ d (λ m. refl) asked made)) w
  perform_mautrix_signal-keeps make_signald w =
      child-keeps deployment _
        (λ b d asked made. inr (asked_signald-key deployment b _ d (λ m. refl) asked made)) w
  perform_mautrix_signal-keeps make_service w =
      child-keeps service _ (λ b d asked made. asked-key service b _ d (λ m. refl) asked made) w
  perform_mautrix_signal-keeps make_pvc w =
      child-keeps claim _ (λ b d asked made. inl (asked-key claim b _ d (λ m. refl) asked made)) w
  perform_mautrix_signal-keeps make_deployment w =
      child-keeps deployment _
        (λ b d asked made. inl (asked-key deployment b _ d (λ m. refl) asked made)) w

  -- However a reconciliation of a MautrixSignal ends, panics and other clients' writes between its
  -- calls included, it creates, updates and patches no other objects than the ConfigMap, the Service,
  -- the Deployment, the claim, the ServiceAccount and the RoleBinding of the name and namespace of the
  -- request and signald's Deployment and claim, and it writes no status but that of the MautrixSignal
  -- itself and those of Synapses: what such writes and reads keep, the reconciliation keeps.
  pub reconcile_mautrix_signal-confined :
      (w : E.World) → P w → P (reconcile_mautrix_signal E req w).1
  unfolding reconcile_mautrix_signal
  reconcile_mautrix_signal-confined w h =
      let read = get_latest_mautrix_signal-keeps E N L H req empty_mautrix_signal w h in
      elim (Bool-cases
        (E.should_halt_or_requeue (get_latest_mautrix_signal E req empty_mautrix_signal w).0.0)) [
          | inl halts ↦ rw (halts, reconcile_mautrix_signal) read
          | inr goes_on ↦
              rw (goes_on, reconcile_mautrix_signal)
                (run_all-keeps E req (perform_mautrix_signal E) (mautrix_signal_steps _)
                  perform_mautrix_signal-keeps _ read)
        ]
