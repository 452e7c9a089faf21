-- ===== src/Helpers/Reconcile/Keeps.antt =====
-- A call of `reconcile_resource` writes the desired object alone.
use synapse_operator.Base.{◌≡◌, sym, subst, Bool-cases, inl, inr}
use synapse_operator.Go.{Error, Result-cases}
use synapse_operator.Env.{Kind, Obj, key_of, Env, IsKeyed, IsMerge}
use synapse_operator.Exec.Keeps.{Rights, Respects}
use synapse_operator.Helpers.Reconcile.{reconcile_resource, patch_existing, create_missing}

module _ (E : Env) (N : IsKeyed E.client) (M : IsMerge E) {R : Rights} {P : E.World → Type 0}
    (H : Respects E.client R P) (k : Kind) (desired : Obj k)
    (allowed : R.write k (key_of k desired)) where
  create_missing-keeps : (e : Error) (w : E.World) → P w → P (create_missing E k desired e w).1
  unfolding create_missing
  create_missing-keeps e w h = elim (Bool-cases (E.is_not_found e)) [
    | inl absent ↦ rw absent (H.create_keeps k desired w allowed h)
    | inr other ↦ rw other h
  ]

  patch_existing-keeps :
      (current : Obj k) (w : E.World)
      → key_of k current ≡ key_of k desired
      → P w
      → P (patch_existing E k desired current w).1
  unfolding patch_existing
  patch_existing-keeps current w same h = elim (Result-cases (E.merge k current desired)) [
    | inr (e, failed) ↦ rw (failed, patch_existing) h
    | inl (merged, done) ↦
        rw (done, patch_existing)
          (H.patch_keeps k merged current w
            (subst (R.write k) (sym (M.merge_key k current desired merged done same)) allowed) h)
  ]

  pub reconcile_resource-keeps : (w : E.World) → P w → P (reconcile_resource E k desired w).1
  unfolding reconcile_resource
  reconcile_resource-keeps w h = elim (Result-cases (E.get k (key_of k desired) w).0) [
    | inl (current, found) ↦
        rw (found, reconcile_resource)
          (patch_existing-keeps current (E.get k (key_of k desired) w).1
            (N.asked_for k (key_of k desired) current w found)
            (H.get_keeps k (key_of k desired) w h))
    | inr (e, failed) ↦
        rw (failed, reconcile_resource)
          (create_missing-keeps e (E.get k (key_of k desired) w).1
            (H.get_keeps k (key_of k desired) w h))
  ]
