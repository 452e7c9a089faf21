-- ===== src/Synapse/Children/Effects.antt =====
-- What a subreconciler of a child resource leaves in a quiet cluster.
use synapse_operator.Base.{◌≡◌, refl, false, Option, none, some}
use synapse_operator.Go.{Error, Result, ok}
use synapse_operator.Kube.{NamespacedName}
use synapse_operator.Api.{Synapse}
use synapse_operator.Env.{
  Kind, Obj, synapse, key_of, Env, Outcome, IsSubreconciler, IsQuiet, IsMerge,
}
use synapse_operator.Exec.{returned, ◌>>=◌, run, settle, flow_of_error, or_requeue, attempt}
use synapse_operator.Helpers.Reconcile.{reconcile_resource}
use synapse_operator.Helpers.Reconcile.Effects.{Reconciled, reconcile_resource-Reconciled}
use synapse_operator.Synapse.Access.Publish.{latest_synapse-found}
use synapse_operator.Synapse.Children.{reconcile_child}

module _ (E : Env) (Q : IsQuiet E.client) (L : IsSubreconciler E.sub) where
  module _ (k : Kind) (desired_for : Synapse → Result (Obj k)) (req : NamespacedName) (s : Synapse)
      (w : E.World) where
    reconcile_child-desired :
        (desired : Obj k)
        → (E.get synapse req w).0 ≡ ok s
        → desired_for s ≡ ok desired
        → let r = reconcile_resource E k desired w in
          reconcile_child E k desired_for req w ≡ (settle E (flow_of_error E r.0), r.1)
    unfolding reconcile_child run ◌>>=◌ or_requeue attempt
    reconcile_child-desired desired found made =
        rw (latest_synapse-found E Q L req s w found) (rw made)

    goes_on-none :
        (failure : Option Error) (o : Outcome)
        → settle E (flow_of_error E failure) ≡ returned o
        → E.should_halt_or_requeue o ≡ false
        → failure ≡ none
    goes_on-none none o ends goes_on = refl
    goes_on-none (some e) o ends goes_on = cc (L.halt-requeue_with_error e)

    -- In a quiet cluster, a subreconciler of a child resource that goes on has left the desired
    -- object where there was none, and otherwise the merge of it into the one that was there.
    pub reconcile_child-Reconciled :
        IsMerge E
        → (desired : Obj k) (o : Outcome) → (E.get synapse req w).0 ≡ ok s
        → desired_for s ≡ ok desired
        → (reconcile_child E k desired_for req w).0 ≡ returned o
        → E.should_halt_or_requeue o ≡ false
        → Reconciled E k desired
            (E.get k (key_of k desired) w).0
            (E.get k (key_of k desired) (reconcile_child E k desired_for req w).1).0
    reconcile_child-Reconciled M desired o found made ends goes_on =
        let same_call = reconcile_child-desired desired found made in
        let quiet : (reconcile_resource E k desired w).0 ≡ none =
          goes_on-none (reconcile_resource E k desired w).0 o (rw same_call at ends) goes_on in
        rw same_call (reconcile_resource-Reconciled E Q M k desired w quiet)
