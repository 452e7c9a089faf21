-- ===== src/Synapse/Children/Keeps.antt =====
-- What each subreconciler of the Synapse controller may write.
use synapse_operator.Base.{◌≡◌, refl, sym, ap, ◌∙◌, subst, inl, inr}
use synapse_operator.Go.{Result, ok, err, Result-cases}
use synapse_operator.Kube.{NamespacedName, ConfigMap, ObjectMeta}
use synapse_operator.Api.{Synapse}
use synapse_operator.Env.{
  Kind, Obj, config_map, postgres_cluster, synapse, key_of, Env, KeepsMeta, IsKeyed, IsMerge,
  IsSubreconciler,
}
use synapse_operator.Exec.{deref, or_requeue, try, attempt}
use synapse_operator.Exec.Keeps.{
  Rights, Respects, Keeps, Any, Keeps-bind, Keeps-run, Keeps-or_requeue, Keeps-attempt, Keeps-deref,
  Keeps-try,
}
use synapse_operator.Helpers.Reconcile.{reconcile_resource}
use synapse_operator.Helpers.Reconcile.Keeps.{reconcile_resource-keeps}
use synapse_operator.Helpers.Config.{UpdateData}
use synapse_operator.Helpers.Owned.{key_of_meta}
use synapse_operator.Helpers.Owned.Bodies.{Keeps-child, Keeps-edit, Keeps-copy}
use synapse_operator.Synapse.Access.{latest_synapse}
use synapse_operator.Synapse.Access.Keeps.{
  Keeps-latest_synapse, update_synapse_status-keeps, update_status_of_synapse-keeps,
  Keeps-publish_status,
}
use synapse_operator.Synapse.Children.{
  meta_for_postgres, reconcile_child, edit_homeserver, reconcile_synapse_config_map,
  config_map_for_synapse_copy, copy_input_synapse_config_map, fetch_input, or_delay,
  parse_input_synapse_config_map, not_ready, await_postgres, reconcile_postgres_cluster_cr,
}
use synapse_operator.Synapse.Children.Keys.{
  postgres_key, meta_for_synapse-key, meta_for_postgres-key, config_map-key, postgres_cluster-key,
}
use synapse_operator.Synapse.Config.{
  config_map_for_synapse, input_config_map_key, parse_homeserver_config_map,
}
use synapse_operator.Synapse.Config.Parse.{parse_homeserver_config_map_iff}
use synapse_operator.Synapse.Resources.{meta_for_synapse}
use synapse_operator.Synapse.Postgres.{
  Check, passes, fails, panics, is_postgres_cluster_ready, postgres_cluster_for_synapse,
}
use synapse_operator.Synapse.Status.{get_postgres_cluster_resource_name}
use synapse_operator.Synapse.Access.{set_failed_state}

module _ (E : Env) (N : IsKeyed E.client) (L : IsSubreconciler E.sub) (M : IsMerge E) {R : Rights}
    {P : E.World → Type 0} (H : Respects E.client R P) (req : NamespacedName) where
  pub reconcile_child-keeps :
      (k : Kind) (desired_for : Synapse → Result (Obj k))
      → ((s : Synapse) (d : Obj k)
          → key_of synapse s ≡ req
          → desired_for s ≡ ok d
          → R.write k (key_of k d))
      → (w : E.World) → P w
      → P (reconcile_child E k desired_for req w).1
  unfolding reconcile_child
  reconcile_child-keeps k desired_for allowed w = Keeps-run E _ w (
      Keeps-child E N M H synapse (latest_synapse E req) req (Keeps-latest_synapse E N L H req) k
        desired_for allowed)

  pub edit_homeserver-keeps :
      (update_data : Synapse → UpdateData)
      → R.write config_map req
      → (w : E.World) → P w
      → P (edit_homeserver E update_data req w).1
  unfolding edit_homeserver
  edit_homeserver-keeps update_data allowed w = Keeps-run E _ w (
      Keeps-edit E N H synapse (latest_synapse E req) req (Keeps-latest_synapse E N L H req)
        update_data "homeserver.yaml" allowed)

  pub config_map-keeps :
      KeepsMeta E
      → R.write config_map req
      → (w : E.World) → P w
      → P (reconcile_synapse_config_map E req w).1
  unfolding reconcile_synapse_config_map
  config_map-keeps K allowed w = Keeps-run E _ w (
      Keeps-bind (latest_synapse E req) _ (Keeps-latest_synapse E N L H req) (λ s is_asked.
        Keeps-bind (deref s.spec.homeserver.values) _
          (Keeps-deref {Post = Any} s.spec.homeserver.values (λ v _. tt))
          (λ v _.
            Keeps-bind (or_requeue E (config_map_for_synapse E s v (meta_for_synapse s))) _
              (Keeps-or_requeue E {Post = λ d. R.write config_map (key_of config_map d)}
                (config_map_for_synapse E s v (meta_for_synapse s))
                (λ d made.
                  subst (R.write config_map)
                    (sym (
                      config_map-key E K s (meta_for_synapse s) v d made
                      ∙ (meta_for_synapse-key s ∙ is_asked)))
                    allowed))
              (λ d may.
                Keeps-attempt E (reconcile_resource E config_map d)
                  (reconcile_resource-keeps E N M H config_map d may)))))

  copy-Keeps :
      (s : Synapse) (object_meta : ObjectMeta)
      → KeepsMeta E
      → Keeps P
          (λ d. key_of config_map d ≡ key_of_meta object_meta)
          (config_map_for_synapse_copy E s object_meta)
  unfolding config_map_for_synapse_copy
  copy-Keeps s object_meta K =
      Keeps-bind (deref s.spec.homeserver.config_map) _
        (Keeps-deref {Post = Any} s.spec.homeserver.config_map (λ ref _. tt))
        (λ ref _. Keeps-copy E K H synapse s (input_config_map_key s ref) object_meta)

  pub copy_input-keeps :
      KeepsMeta E
      → R.write config_map req
      → (w : E.World) → P w
      → P (copy_input_synapse_config_map E req w).1
  unfolding copy_input_synapse_config_map
  copy_input-keeps K allowed w = Keeps-run E _ w (
      Keeps-bind (latest_synapse E req) _ (Keeps-latest_synapse E N L H req) (λ s is_asked.
        Keeps-bind (config_map_for_synapse_copy E s (meta_for_synapse s)) _
          (copy-Keeps s (meta_for_synapse s) K)
          (λ d same. Keeps-attempt E (reconcile_resource E config_map d) (
            reconcile_resource-keeps E N M H config_map d (
              subst (R.write config_map) (sym (same ∙ (meta_for_synapse-key s ∙ is_asked)))
                allowed)))))

  fetch_input-Keeps :
      (s : Synapse) (key : NamespacedName)
      → R.status synapse (key_of synapse s)
      → Keeps P Any (fetch_input E s key)
  unfolding fetch_input set_failed_state
  fetch_input-Keeps s key allowed = record {
    at = λ w h.
        let read = H.get_keeps config_map key w h in
        elim (Result-cases (E.get config_map key w).0) [
          | inl (cm, found) ↦ rw (found, fetch_input) (read, tt)
          | inr (e, failed) ↦
              rw (failed, fetch_input)
                (
                  update_status_of_synapse-keeps E N L H _ allowed (E.get config_map key w).1 read,
                  tt,
                )
        ];
  }

  or_delay-Keeps :
      {A : Type 0} {Post : A → Type 0} (r : Result A)
      → ((a : A) → r ≡ ok a → Post a)
      → Keeps P Post (or_delay E r)
  unfolding or_delay
  or_delay-Keeps (ok a) post = record { at = λ w h. (h, post a refl) }
  or_delay-Keeps (err e) post = record { at = λ w h. (h, tt) }

  parsed-key :
      (s s' : Synapse) (cm : ConfigMap)
      → parse_homeserver_config_map E s cm ≡ ok s'
      → key_of synapse s' ≡ key_of synapse s
  parsed-key s s' cm parsed =
      let (_, _, _, _, _, _, same) = (parse_homeserver_config_map_iff E s cm s').0 parsed in
      ap (key_of synapse) same

  pub parse_input-keeps :
      R.status synapse req → (w : E.World) → P w → P (parse_input_synapse_config_map E req w).1
  unfolding parse_input_synapse_config_map
  parse_input-keeps allowed w = Keeps-run E _ w (
      Keeps-bind (latest_synapse E req) _ (Keeps-latest_synapse E N L H req) (λ s is_asked.
        let may = subst (R.status synapse) (sym is_asked) allowed in
        Keeps-bind (deref s.spec.homeserver.config_map) _
          (Keeps-deref {Post = Any} s.spec.homeserver.config_map (λ ref _. tt))
          (λ ref _.
            Keeps-bind (fetch_input E s (input_config_map_key s ref)) _
              (fetch_input-Keeps s (input_config_map_key s ref) may)
              (λ cm _.
                Keeps-bind (or_delay E (parse_homeserver_config_map E s cm)) _
                  (or_delay-Keeps {Post = λ s'. R.status synapse (key_of synapse s')}
                    (parse_homeserver_config_map E s cm)
                    (λ s' parsed. subst (R.status synapse) (sym (parsed-key s s' cm parsed)) may))
                  (λ s' may'. Keeps-publish_status E N L H s' may')))))

  await_postgres-Keeps :
      (s : Synapse) (c : Check)
      → R.status synapse (key_of synapse s)
      → Keeps P Any (await_postgres E s c)
  unfolding await_postgres not_ready
  await_postgres-Keeps s passes may = record { at = λ w h. (h, tt) }
  await_postgres-Keeps s panics may = record { at = λ w h. (h, tt) }
  await_postgres-Keeps s fails may = record {
    at = λ w h. (update_synapse_status-keeps E N L H _ may w h, tt);
  }

  pub postgres_cluster-keeps :
      KeepsMeta E
      → R.status synapse req
      → R.write postgres_cluster (postgres_key req)
      → (w : E.World) → P w
      → P (reconcile_postgres_cluster_cr E req w).1
  unfolding reconcile_postgres_cluster_cr
  postgres_cluster-keeps K allowed writes w = Keeps-run E _ w (
      Keeps-bind (latest_synapse E req) _ (Keeps-latest_synapse E N L H req) (λ s is_asked.
        let may = subst (R.status synapse) (sym is_asked) allowed in
        let key : NamespacedName = record {
          name = get_postgres_cluster_resource_name s;
          namespace = s.meta.namespace;
        } in
        Keeps-bind (or_requeue E (postgres_cluster_for_synapse E s (meta_for_postgres s))) _
          (Keeps-or_requeue E {Post = λ d. R.write postgres_cluster (key_of postgres_cluster d)}
            (postgres_cluster_for_synapse E s (meta_for_postgres s))
            (λ d made.
              subst (R.write postgres_cluster)
                (sym (
                  postgres_cluster-key E K s (meta_for_postgres s) d made
                  ∙ (meta_for_postgres-key s ∙ ap postgres_key is_asked)))
                writes))
          (λ d may'.
            Keeps-bind (attempt E (reconcile_resource E postgres_cluster d)) _
              (Keeps-attempt E (reconcile_resource E postgres_cluster d)
                (reconcile_resource-keeps E N M H postgres_cluster d may'))
              (λ _ _.
                Keeps-bind (try E (E.get postgres_cluster key)) _
                  (Keeps-try E {Post = Any} (E.get postgres_cluster key)
                    (H.get_keeps postgres_cluster key) (λ w' a _. tt))
                  (λ created _. await_postgres-Keeps s (is_postgres_cluster_ready created) may)))))
