-- ===== src/Helpers/Owned/Bodies.antt =====
-- The bodies that the subreconcilers of the three controllers share, and what they may write.
use synapse_operator.Base.{String, ◌≡◌, sym, subst}
use synapse_operator.Go.{Result, ok}
use synapse_operator.Kube.{ObjectMeta, NamespacedName}
use synapse_operator.Env.{Kind, Obj, config_map, key_of, Env, IsKeyed, IsMerge, KeepsMeta}
use synapse_operator.Exec.{Exec, next, or_requeue, try, attempt, ◌>>=◌}
use synapse_operator.Exec.Keeps.{
  Rights, Respects, Keeps, Any, Keeps-bind, Keeps-or_requeue, Keeps-attempt, Keeps-try, Keeps-next,
}
use synapse_operator.Helpers.Reconcile.{reconcile_resource}
use synapse_operator.Helpers.Reconcile.Keeps.{reconcile_resource-keeps}
use synapse_operator.Helpers.Config.{UpdateData, update_config_map, get_config_map_copy}
use synapse_operator.Helpers.Config.Keeps.{update_config_map-keeps}
use synapse_operator.Helpers.Owned.{key_of_meta, owned-key}

module _ (E : Env) (N : IsKeyed E.client) (M : IsMerge E) {R : Rights} {P : E.World → Type 0}
    (H : Respects E.client R P) (owner : Kind) (latest : Exec E.World (Obj owner))
    (req : NamespacedName) (reads : Keeps P (λ o. key_of owner o ≡ req) latest) where
  -- Read the owner, build the desired object, reconcile it.
  pub Keeps-child :
      (k : Kind) (desired_for : Obj owner → Result (Obj k))
      → ((o : Obj owner) (d : Obj k)
          → key_of owner o ≡ req
          → desired_for o ≡ ok d
          → R.write k (key_of k d))
      → Keeps P Any
          (do o ← latest; d ← or_requeue E (desired_for o); attempt E (reconcile_resource E k d))
  Keeps-child k desired_for allowed = Keeps-bind latest _ reads (λ o is_asked.
      Keeps-bind (or_requeue E (desired_for o)) _
        (Keeps-or_requeue E {Post = λ d. R.write k (key_of k d)} (desired_for o)
          (λ d. allowed o d is_asked))
        (λ d may.
          Keeps-attempt E (reconcile_resource E k d) (reconcile_resource-keeps E N M H k d may)))

module _ (E : Env) (N : IsKeyed E.client) {R : Rights} {P : E.World → Type 0}
    (H : Respects E.client R P) (owner : Kind) (latest : Exec E.World (Obj owner))
    (req : NamespacedName) (reads : Keeps P (λ o. key_of owner o ≡ req) latest) where
  -- Read the owner, edit the ConfigMap of its name.
  pub Keeps-edit :
      (update_data : Obj owner → UpdateData) (filename : String)
      → R.write config_map req
      → Keeps P Any
          (do o ← latest; attempt E (update_config_map E (key_of owner o) (update_data o) filename))
  Keeps-edit update_data filename allowed = Keeps-bind latest _ reads (λ o is_asked.
      Keeps-attempt E (update_config_map E (key_of owner o) (update_data o) filename) (
        update_config_map-keeps E N H (key_of owner o)
          (subst (R.write config_map) (sym is_asked) allowed) (update_data o) filename))

module _ (E : Env) (K : KeepsMeta E) {R : Rights} {P : E.World → Type 0}
    (H : Respects E.client R P) where
  -- A copy of a ConfigMap has the key of the metadata given.
  pub Keeps-copy :
      (owner : Kind) (o : Obj owner) (source : NamespacedName) (object_meta : ObjectMeta)
      → Keeps P
          (λ d. key_of config_map d ≡ key_of_meta object_meta)
          (do
            copy ← try E (get_config_map_copy E source object_meta)
            m ← or_requeue E (E.set_controller_reference owner o object_meta)
            λ w. (next (record copy { meta = m }), w))
  unfolding get_config_map_copy
  Keeps-copy owner o source object_meta =
      Keeps-bind (try E (get_config_map_copy E source object_meta)) _
        (Keeps-try E {Post = Any} (get_config_map_copy E source object_meta)
          (λ w h. H.get_keeps config_map source w h) (λ w a _. tt))
        (λ copy _.
          Keeps-bind (or_requeue E (E.set_controller_reference owner o object_meta)) _
            (Keeps-or_requeue E {Post = λ m. key_of_meta m ≡ key_of_meta object_meta}
              (E.set_controller_reference owner o object_meta) (owned-key E K owner o object_meta))
            (λ m same. Keeps-next (record copy { meta = m }) same))
