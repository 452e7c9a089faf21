-- ===== src/Heisenbridge/Confined.antt =====
-- What a reconciliation of a Heisenbridge may write.
use synapse_operator.Base.{◌≡◌, refl, ◌∙◌, inl, inr, Bool-cases}
use synapse_operator.Go.{ok, Result-cases, ◌>>=◌}
use synapse_operator.Kube.{NamespacedName, ObjectMeta}
use synapse_operator.Api.{Heisenbridge}
use synapse_operator.Env.{
  Kind, Obj, synapse, heisenbridge, config_map, service, deployment, key_of, meta_of, Env, IsKeyed,
  IsSubreconciler, IsMerge, KeepsMeta,
}
use synapse_operator.Exec.Keeps.{Rights, Respects, Keeps, Any, Keeps-bind, Keeps-run, Keeps-attempt}
use synapse_operator.Loop.Keeps.{run_all-keeps}
use synapse_operator.Helpers.Naming.{set_object_meta}
use synapse_operator.Helpers.Reconcile.{reconcile_resource}
use synapse_operator.Helpers.Reconcile.Keeps.{reconcile_resource-keeps}
use synapse_operator.Helpers.Owned.{key_of_meta, built-key}
use synapse_operator.Helpers.Owned.Bodies.{Keeps-child, Keeps-edit, Keeps-copy}
use synapse_operator.Heisenbridge.Access.{
  empty_heisenbridge, get_latest_heisenbridge, latest_heisenbridge,
}
use synapse_operator.Heisenbridge.Keeps.{
  get_latest_heisenbridge-keeps, Keeps-latest_heisenbridge, set_heisenbridge_failed-keeps,
  trigger-keeps,
}
use synapse_operator.Heisenbridge.Resources.{
  meta_for_heisenbridge, update_heisenbridge_with_url, deployment_for_heisenbridge,
  service_for_heisenbridge, config_map_for_heisenbridge,
}
use synapse_operator.Heisenbridge.Controller.{
  key_for_config_map, HeisenbridgeStep, trigger_synapse, copy_input, configure, make_config_map,
  make_service, make_deployment, heisenbridge_steps, reconcile_heisenbridge_child,
  reconcile_heisenbridge_config_map, reconcile_heisenbridge_service,
  reconcile_heisenbridge_deployment, check_input, config_map_for_heisenbridge_copy,
  copy_input_heisenbridge_config_map, configure_heisenbridge_config_map, perform_heisenbridge,
  reconcile_heisenbridge,
}

-- The objects of the bridge's name, its status, and the statuses of Synapses, one of which it marks.
abbrev pub OwnedByHeisenbridge : NamespacedName → Kind → NamespacedName → Type 0
OwnedByHeisenbridge req config_map n = n ≡ req
OwnedByHeisenbridge req service n = n ≡ req
OwnedByHeisenbridge req deployment n = n ≡ req
OwnedByHeisenbridge req _ n = ⊥

abbrev pub StatusOfHeisenbridge : NamespacedName → Kind → NamespacedName → Type 0
StatusOfHeisenbridge req heisenbridge n = n ≡ req
StatusOfHeisenbridge req synapse n = Unit
StatusOfHeisenbridge req _ n = ⊥

abbrev pub heisenbridge_rights : NamespacedName → Rights
heisenbridge_rights req = record {
  write = OwnedByHeisenbridge req;
  status = StatusOfHeisenbridge req;
}

meta_for_heisenbridge-key :
    (b : Heisenbridge) → key_of_meta (meta_for_heisenbridge b) ≡ key_of heisenbridge b
unfolding meta_for_heisenbridge set_object_meta
meta_for_heisenbridge-key b = refl

module _ (E : Env) (N : IsKeyed E.client) (L : IsSubreconciler E.sub) (M : IsMerge E)
    (K : KeepsMeta E) (req : NamespacedName) (P : E.World → Type 0)
    (H : Respects E.client (heisenbridge_rights req) P) where
  -- An object of the bridge's metadata has the key of the request.
  asked-key :
      (k : Kind) (b : Heisenbridge) (build : ObjectMeta → Obj k) (d : Obj k)
      → ((m : ObjectMeta) → meta_of k (build m) ≡ m)
      → key_of heisenbridge b ≡ req
      → (E.set_controller_reference heisenbridge b (meta_for_heisenbridge b) >>= λ m. ok (build m))
        ≡ ok d
      → key_of k d ≡ req
  asked-key k b build d same asked made =
      built-key E K heisenbridge k b build (meta_for_heisenbridge b) d same made
      ∙ (meta_for_heisenbridge-key b ∙ asked)

  check_input-Keeps :
      (b : Heisenbridge) → key_of heisenbridge b ≡ req → Keeps P Any (check_input E b)
  unfolding check_input
  check_input-Keeps b asked = record {
    at = λ w h.
        let key = key_for_config_map b in
        let read = H.get_keeps config_map key w h in
        elim (Result-cases (E.get config_map key w).0) [
          | inl (cm, found) ↦ rw (found, check_input) (read, tt)
          | inr (e, failed) ↦
              rw (failed, check_input)
                (
                  set_heisenbridge_failed-keeps E N L H b _ (E.get config_map key w).1 asked read,
                  tt,
                )
        ];
  }

  copy_input-keeps : (w : E.World) → P w → P (copy_input_heisenbridge_config_map E req w).1
  unfolding copy_input_heisenbridge_config_map config_map_for_heisenbridge_copy
  copy_input-keeps w = Keeps-run E _ w (
      Keeps-bind (latest_heisenbridge E req) _ (Keeps-latest_heisenbridge E N L H req) (λ b asked.
        Keeps-bind (check_input E b) _ (check_input-Keeps b asked) (λ _ _.
          Keeps-bind (config_map_for_heisenbridge_copy E b (meta_for_heisenbridge b)) _
            (Keeps-copy E K H heisenbridge b (key_for_config_map b) (meta_for_heisenbridge b))
            (λ d same. Keeps-attempt E (reconcile_resource E config_map d) (
              reconcile_resource-keeps E N M H config_map d
                (same ∙ (meta_for_heisenbridge-key b ∙ asked)))))))

  perform_heisenbridge-keeps :
      (step : HeisenbridgeStep) (w : E.World) → P w → P (perform_heisenbridge E step req w).1
  unfolding perform_heisenbridge reconcile_heisenbridge_child reconcile_heisenbridge_config_map
      reconcile_heisenbridge_service reconcile_heisenbridge_deployment
      configure_heisenbridge_config_map deployment_for_heisenbridge service_for_heisenbridge
      config_map_for_heisenbridge
  perform_heisenbridge-keeps trigger_synapse w = trigger-keeps E N L H req (λ n. tt) w
  perform_heisenbridge-keeps copy_input w = copy_input-keeps w
  perform_heisenbridge-keeps configure w = Keeps-run E _ w (
      Keeps-edit E N H heisenbridge (latest_heisenbridge E req) req
        (Keeps-latest_heisenbridge E N L H req) update_heisenbridge_with_url "heisenbridge.yaml"
        refl)
  perform_heisenbridge-keeps make_config_map w = Keeps-run E _ w (
      Keeps-child E N M H heisenbridge (latest_heisenbridge E req) req
        (Keeps-latest_heisenbridge E N L H req) config_map _
        (λ b d asked made. asked-key config_map b _ d (λ m. refl) asked made))
  perform_heisenbridge-keeps make_service w = Keeps-run E _ w (
      Keeps-child E N M H heisenbridge (latest_heisenbridge E req) req
        (Keeps-latest_heisenbridge E N L H req) service _
        (λ b d asked made. asked-key service b _ d (λ m. refl) asked made))
  perform_heisenbridge-keeps make_deployment w = Keeps-run E _ w (
      Keeps-child E N M H heisenbridge (latest_heisenbridge E req) req
        (Keeps-latest_heisenbridge E N L H req) deployment _
        (λ b d asked made. asked-key deployment b _ d (λ m. refl) asked made))

  -- However a reconciliation of a Heisenbridge ends, panics and other clients' writes between its
  -- calls included, it creates, updates and patches no other objects than the ConfigMap, the Service
  -- and the Deployment of the name and namespace of the request, and it writes no status but that of
  -- the Heisenbridge itself and those of Synapses: what such writes and reads keep, the reconciliation
  -- keeps.
  pub reconcile_heisenbridge-confined : (w : E.World) → P w → P (reconcile_heisenbridge E req w).1
  unfolding reconcile_heisenbridge
  reconcile_heisenbridge-confined w h =
      let read = get_latest_heisenbridge-keeps E N L H req empty_heisenbridge w h in
      elim (Bool-cases
        (E.should_halt_or_requeue (get_latest_heisenbridge E req empty_heisenbridge w).0.0)) [
          | inl halts ↦ rw (halts, reconcile_heisenbridge) read
          | inr goes_on ↦
              rw (goes_on, reconcile_heisenbridge)
                (run_all-keeps E req (perform_heisenbridge E) (heisenbridge_steps _)
                  perform_heisenbridge-keeps _ read)
        ]
