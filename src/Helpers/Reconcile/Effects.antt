-- ===== src/Helpers/Reconcile/Effects.antt =====
-- What a call of `reconcile_resource` leaves in a quiet cluster.
use synapse_operator.Base.{◌≡◌, sym, ap, ◌∙◌, subst, true, none, inl, inr, Bool-cases}
use synapse_operator.Go.{Error, Result, ok, err, Result-cases, ok_inj}
use synapse_operator.Kube.{NamespacedName}
use synapse_operator.Env.{Kind, Obj, key_of, Env, IsQuiet, IsMerge}
use synapse_operator.Helpers.Reconcile.{reconcile_resource, patch_existing, create_missing}

module _ (E : Env) where
  -- The stored object before and after: merged if it was there, the desired one if it was not.
  abbrev pub Reconciled : (k : Kind) → Obj k → Result (Obj k) → Result (Obj k) → Type 0
  Reconciled k desired (ok current) after =
      (merged : Obj k) × (E.merge k current desired ≡ ok merged) × (after ≡ ok merged)
  Reconciled k desired (err e) after = (E.is_not_found e ≡ true) × (after ≡ ok desired)

  module _ (Q : IsQuiet E.client) (M : IsMerge E) (k : Kind) (desired : Obj k) (w : E.World) where
    create_missing-Reconciled :
        (e : Error)
        → (create_missing E k desired e w).0 ≡ none
        → Reconciled k desired
            (err e)
            (E.get k (key_of k desired) (create_missing E k desired e w).1).0
    unfolding create_missing
    create_missing-Reconciled e h = elim (Bool-cases (E.is_not_found e)) [
      | inl absent ↦ (absent, rw absent (Q.get-create k desired w (rw absent at h)))
      | inr other ↦ cc (rw other at h)
    ]

    patch_existing-Reconciled :
        (current : Obj k)
        → (E.get k (key_of k desired) w).0 ≡ ok current
        → (patch_existing E k desired current w).0 ≡ none
        → Reconciled k desired
            (ok current)
            (E.get k (key_of k desired) (patch_existing E k desired current w).1).0
    unfolding patch_existing
    patch_existing-Reconciled current found h = elim (Result-cases (E.merge k current desired)) [
      | inr (e, failed) ↦ cc (rw (failed, patch_existing) at h)
      | inl (merged, done) ↦
          let same_key : key_of k merged ≡ key_of k desired =
            M.merge_key k current desired merged done (Q.key-get k _ current w found) in
          let stored : (n : NamespacedName) → Type 0 =
            λ n. (E.get k n (E.patch k merged current w).1).0 ≡ ok merged in
          (
            merged,
            done,
            rw (done, patch_existing)
                (subst stored same_key (
                  Q.get-patch k merged current w
                    (subst (λ n. (E.get k n w).0 ≡ ok current) (sym same_key) found)
                    (rw (done, patch_existing) at h))),
          )
    ]

    reconcile_resource-found :
        (current : Obj k)
        → (E.get k (key_of k desired) w).0 ≡ ok current
        → reconcile_resource E k desired w ≡ patch_existing E k desired current w
    unfolding reconcile_resource
    reconcile_resource-found current found = rw (found, Q.get_world, reconcile_resource)

    reconcile_resource-absent :
        (e : Error)
        → (E.get k (key_of k desired) w).0 ≡ err e
        → reconcile_resource E k desired w ≡ create_missing E k desired e w
    unfolding reconcile_resource
    reconcile_resource-absent e absent = rw (absent, Q.get_world, reconcile_resource)

    -- In a quiet cluster a call that returns no error leaves the desired object where there was
    -- none, and otherwise the merge of the desired object into the one that was there.
    pub reconcile_resource-Reconciled :
        (reconcile_resource E k desired w).0 ≡ none
        → Reconciled k desired
            (E.get k (key_of k desired) w).0
            (E.get k (key_of k desired) (reconcile_resource E k desired w).1).0
    reconcile_resource-Reconciled h = elim (Result-cases (E.get k (key_of k desired) w).0) [
      | inl (current, found) ↦
          let same_call = reconcile_resource-found current found in
          rw (found, same_call) (patch_existing-Reconciled current found (rw same_call at h))
      | inr (e, absent) ↦
          let same_call = reconcile_resource-absent e absent in
          rw (absent, same_call) (create_missing-Reconciled e (rw same_call at h))
    ]

  module _ (Q : IsQuiet E.client) (M : IsMerge E) (k : Kind) (desired : Obj k) where
    pub Reconciled-merged :
        (before after : Result (Obj k))
        → Reconciled k desired before after
        → (stored : Obj k) × (after ≡ ok stored) × (E.merge k stored desired ≡ ok stored)
    Reconciled-merged (ok current) after (merged, done, same) =
        (merged, same, M.merge_again k current desired merged done)
    Reconciled-merged (err e) after (absent, same) = (desired, same, M.merge_self k desired)

    Reconciled-same :
        (stored : Obj k) (before after : Result (Obj k))
        → before ≡ ok stored
        → E.merge k stored desired ≡ ok stored
        → Reconciled k desired before after
        → after ≡ before
    Reconciled-same stored (err e) after found done h = cc
    Reconciled-same stored (ok current) after found done (merged, done', same) =
        same
        ∙ (sym done'
            ∙ (ap (λ o. E.merge k o desired) (ok_inj current stored found) ∙ (done ∙ sym found)))

    -- Reconciling is idempotent in a quiet cluster: if two calls in a row return no error, the
    -- second leaves the stored object as the first has made it.
    pub reconcile_resource_idem :
        (w : E.World)
        → (reconcile_resource E k desired w).0 ≡ none
        → let w₁ = (reconcile_resource E k desired w).1 in
          (reconcile_resource E k desired w₁).0 ≡ none
          → (E.get k (key_of k desired) (reconcile_resource E k desired w₁).1).0
            ≡ (E.get k (key_of k desired) w₁).0
    reconcile_resource_idem w h h₁ =
        let w₁ = (reconcile_resource E k desired w).1 in
        let (stored, found, done) =
          Reconciled-merged _ _ (reconcile_resource-Reconciled Q M k desired w h) in
        Reconciled-same stored _ _ found done (reconcile_resource-Reconciled Q M k desired w₁ h₁)
