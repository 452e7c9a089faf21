-- ===== src/Helpers/Reconcile.antt =====
-- `ReconcileResource` of helpers/reconcile/reconcile.go: bring one resource to its desired state.
-- The log lines are left out.
pub mod Keeps
pub mod Effects
use synapse_operator.Base.{Option, none, some, if◌then◌else◌}
use synapse_operator.Go.{Error, Result, ok, err}
use synapse_operator.Env.{Kind, Obj, key_of, Env}

module _ (E : Env) where
  -- The branch of a resource that was read: merge the desired state into it, and patch.
  patch_existing : (k : Kind) → Obj k → Obj k → E.World → Option Error × E.World
  patch_existing k desired current w = elim (E.merge k current desired) [
    | err e ↦ (some e, w)
    | ok merged ↦ E.patch k merged current w
  ]

  -- The branch of a read that failed. A failed creation returns its error; after a successful one
  -- the code goes on to `return err`, where `err` has become the nil of the creation.
  create_missing : (k : Kind) → Obj k → Error → E.World → Option Error × E.World
  create_missing k desired e w = if E.is_not_found e then E.create k desired w else (some e, w)

  unfoldable pub reconcile_resource : (k : Kind) → Obj k → E.World → Option Error × E.World
  unfolding patch_existing create_missing
  reconcile_resource k desired w =
      let (found, w') = E.get k (key_of k desired) w in
      elim found [
        | ok current ↦ patch_existing k desired current w'
        | err e ↦ create_missing k desired e w'
      ]
