-- ===== src/Helpers/Owned.antt =====
-- Objects that a controller builds with the owner set by `SetControllerReference`
-- (helpers/reconcile/reconcile.go gives their metadata).
pub mod Bodies
use synapse_operator.Base.{◌≡◌, refl, sym, ap, ◌∙◌}
use synapse_operator.Go.{Result, ok, ok_inj, bind_ok, ◌>>=◌}
use synapse_operator.Kube.{ObjectMeta, NamespacedName}
use synapse_operator.Env.{Kind, Obj, meta_of, key_of, Env, KeepsMeta}

abbrev pub key_of_meta : ObjectMeta → NamespacedName
key_of_meta m = record { name = m.name; namespace = m.namespace }

module _ (E : Env) (K : KeepsMeta E) where
  pub owned-key :
      (owner : Kind) (o : Obj owner) (object_meta m : ObjectMeta)
      → E.set_controller_reference owner o object_meta ≡ ok m
      → key_of_meta m ≡ key_of_meta object_meta
  owned-key owner o object_meta m owned =
      let (name, namespace, labels) = K.kept owner o object_meta m owned in
      λ i. record { name = name i; namespace = namespace i }

  -- An object that is built from metadata with its owner set, `build`, has the key of the metadata.
  pub built-key :
      (owner k : Kind) (o : Obj owner) (build : ObjectMeta → Obj k) (object_meta : ObjectMeta)
      (object : Obj k)
      → ((m : ObjectMeta) → meta_of k (build m) ≡ m)
      → (E.set_controller_reference owner o object_meta >>= λ m. ok (build m)) ≡ ok object
      → key_of k object ≡ key_of_meta object_meta
  built-key owner k o build object_meta object same made =
      let (m, owned, e) =
        bind_ok (E.set_controller_reference owner o object_meta) (λ m. ok (build m)) made in
      ap (key_of k) (sym (ok_inj (build m) object e))
      ∙ (ap key_of_meta (same m) ∙ owned-key owner o object_meta m owned)
