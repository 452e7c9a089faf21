-- ===== src/Synapse/Controller/EndState.antt =====
-- What a subreconciler of a Synapse that goes on has found and brought about.
use synapse_operator.Base.{◌≡◌, ap, false, Bool-cases, inl, inr}
use synapse_operator.Go.{Result, ok, Result-cases}
use synapse_operator.Kube.{NamespacedName}
use synapse_operator.Api.{Synapse, synapse_status_eq, synapse_status_eq_iff}
use synapse_operator.Env.{
  Kind, Obj, synapse, key_of, Env, Outcome, IsQuiet, IsSubreconciler, IsMerge,
}
use synapse_operator.Exec.{returned, ◌>>=◌, run, settle, or_requeue}
use synapse_operator.Helpers.Reconcile.Effects.{Reconciled-merged}
use synapse_operator.Synapse.Access.{update_synapse_status, flow_of_update}
use synapse_operator.Synapse.Access.Publish.{
  latest_synapse-found, latest_synapse-unread, update_synapse_status_same,
  update_synapse_status-differs,
}
use synapse_operator.Synapse.Children.{reconcile_child}
use synapse_operator.Synapse.Children.Effects.{reconcile_child-Reconciled}

-- The object that is wanted can be built, and the stored one is what its merge makes: reconciling
-- once more changes nothing.
abbrev pub Settled : (E : Env) (k : Kind) → Result (Obj k) → E.World → Type 0
Settled E k wanted w =
    (desired : Obj k) × (stored : Obj k) × (wanted ≡ ok desired)
    × ((E.get k (key_of k desired) w).0 ≡ ok stored)
    × (E.merge k stored desired ≡ ok stored)

module _ (E : Env) (Q : IsQuiet E.client) (L : IsSubreconciler E.sub) (req : NamespacedName) where
  -- A subreconciler of a child resource that goes on has found the Synapse and built the object.
  module _ (k : Kind) (desired_for : Synapse → Result (Obj k)) (w : E.World) (o : Outcome)
      (returns : (reconcile_child E k desired_for req w).0 ≡ returned o)
      (goes_on : E.should_halt_or_requeue o ≡ false) where
    pub child-found : (s : Synapse) × ((E.get synapse req w).0 ≡ ok s)
    unfolding reconcile_child run ◌>>=◌
    child-found = elim (Result-cases (E.get synapse req w).0) [
      | inl (s, found) ↦ (s, found)
      | inr (e, failed) ↦
          let (o', halts, asks) = latest_synapse-unread E Q L req e w failed in
          cc (rw (halts, reconcile_child) at returns, asks, goes_on)
    ]

    child-desired :
        (s : Synapse) → (E.get synapse req w).0 ≡ ok s → (d : Obj k) × (desired_for s ≡ ok d)
    unfolding reconcile_child run ◌>>=◌ or_requeue
    child-desired s found = elim (Result-cases (desired_for s)) [
      | inl (d, made) ↦ (d, made)
      | inr (e, failed) ↦ cc (
        rw failed at (rw (latest_synapse-found E Q L req s w found) at returns),
        L.halt-requeue_with_error e,
        goes_on,
      )
    ]

    pub child-Settled :
        IsMerge E
        → (s : Synapse) → (E.get synapse req w).0 ≡ ok s
        → Settled E k (desired_for s) (reconcile_child E k desired_for req w).1
    child-Settled M s found =
        let (desired, made) = child-desired s found in
        let effect =
          reconcile_child-Reconciled E Q L k desired_for req s w M desired o found made returns
            goes_on in
        let (stored, found', merged) = Reconciled-merged E Q M k desired _ _ effect in
        (desired, stored, made, found', merged)

  -- An update of the status that goes on has found the status there already.
  module _ (s current : Synapse) (w : E.World)
      (found : (E.get synapse (key_of synapse s) w).0 ≡ ok current) (o : Outcome)
      (returns : settle E (flow_of_update E (update_synapse_status E s w).0) ≡ returned o)
      (goes_on : E.should_halt_or_requeue o ≡ false) where
    pub update-goes_on : s.status ≡ current.status
    update-goes_on = elim (Bool-cases (synapse_status_eq s.status current.status)) [
      | inl same ↦ (synapse_status_eq_iff s.status current.status).0 same
      | inr differs ↦ elim (update_synapse_status-differs E Q s current w found differs) [
        | inl patched ↦ cc (rw patched at returns, L.halt-requeue_now, goes_on)
        | inr (e, failed) ↦ cc (rw failed at returns, L.halt-requeue_with_error e, goes_on)
      ]
    ]

    pub update-unchanged : (update_synapse_status E s w).1 ≡ w
    update-unchanged =
        ap (λ u. u.1) (update_synapse_status_same E Q s current w found update-goes_on)
