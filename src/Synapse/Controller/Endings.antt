-- ===== src/Synapse/Controller/Endings.antt =====
-- How a reconciliation of a Synapse gets to its steps, and how it ends before them for want of the
-- operator of PostgreSQL.
use synapse_operator.Base.{
  ◌≡◌, refl, ◌∙◌, sym, subst, Bool, true, false, none, some, List, ◌⊎◌, inl, inr, if◌then◌else◌, ap,
}
use synapse_operator.Go.{Error, ok, err}
use synapse_operator.Kube.{NamespacedName}
use synapse_operator.Api.{Synapse}
use synapse_operator.Env.{Obj, synapse, postgres_cluster, Env, IsSubreconciler, IsQuiet}
use synapse_operator.Synapse.Access.{
  get_latest_synapse, update_synapse_status, update_status_of_synapse, set_failed_state,
}
use synapse_operator.Synapse.Access.Publish.{update_synapse_status-Updated}
use synapse_operator.Synapse.Controller.{
  refuse_postgres, run_steps, no_operator, check_postgres_operator, start_steps, reconcile,
}

if_same : {A : Type 0} (b : Bool) (a : A) → (if b then a else a) ≡ a
if_same true a = refl
if_same false a = refl

module _ (E : Env) (Q : IsQuiet E.client) (L : IsSubreconciler E.sub) where
  module _ (req : NamespacedName) (w : E.World) where
    module _ (s : Synapse) (found : (E.get synapse req w).0 ≡ ok s) where
      reconcile-start_steps : reconcile E req w ≡ start_steps E s req w
      unfolding reconcile get_latest_synapse run_steps
      reconcile-start_steps =
          rw (found, L.halt-continue_reconciling, Q.get_world, get_latest_synapse, reconcile)

      -- No PostgreSQL is asked for, or the operator for it is installed.
      abbrev pub HasOperator : Type 0
      HasOperator =
          (s.spec.create_new_postgresql ≡ false)
          ⊎ ((clusters : List (Obj postgres_cluster)) × ((E.list_all postgres_cluster w).0
                ≡ ok clusters))

      check-run_steps :
          (clusters : List (Obj postgres_cluster))
          → (E.list_all postgres_cluster w).0 ≡ ok clusters
          → check_postgres_operator E s req w ≡ run_steps E s req w
      unfolding check_postgres_operator
      check-run_steps clusters listed = rw (listed, Q.list_world, check_postgres_operator)

      pub reconcile-run_steps : HasOperator → reconcile E req w ≡ run_steps E s req w
      unfolding start_steps
      reconcile-run_steps has = reconcile-start_steps ∙ elim has [
        | inl neither ↦
            ap (λ b. if b then check_postgres_operator E s req w else run_steps E s req w) neither
        | inr (clusters, listed) ↦
            ap (λ r. if s.spec.create_new_postgresql then r else run_steps E s req w)
              (check-run_steps clusters listed)
            ∙ if_same s.spec.create_new_postgresql (run_steps E s req w)
      ]

      -- What the reconciliation says of a Synapse that it cannot give a database.
      abbrev pub failed : Synapse
      failed = record s { status = record (s.status) { state = "FAILED"; reason = no_operator E } }

      reconcile-refuse :
          (e : Error)
          → s.spec.create_new_postgresql ≡ true
          → (E.list_all postgres_cluster w).0 ≡ err e
          → reconcile E req w ≡ refuse_postgres E s w
      unfolding start_steps check_postgres_operator refuse_postgres
      reconcile-refuse e asks absent =
          reconcile-start_steps
          ∙ ap (λ b. if b then check_postgres_operator E s req w else run_steps E s req w) asks
          ∙ rw (absent, Q.list_world, check_postgres_operator)

      latest-failed :
          (update_synapse_status E failed w).0.0 ≡ none
          → (E.get synapse req (set_failed_state E s (no_operator E) w).1).0 ≡ ok failed
      unfolding set_failed_state update_status_of_synapse
      latest-failed written =
          let key = Q.key-get synapse req s w found in
          subst (λ n. (E.get synapse n (update_synapse_status E failed w).1).0 ≡ ok failed) key
            (update_synapse_status-Updated E Q failed s w
              (subst (λ n. (E.get synapse n w).0 ≡ ok s) (sym key) found) written).0

      -- In a quiet cluster, for a Synapse that asks for PostgreSQL where no PostgresCluster can be
      -- listed, and when the write of its status succeeds: nothing is requeued, no step runs, and the
      -- Synapse is stored as failed, with the reason, all else of it as it was.
      pub reconcile_without_operator :
          (e : Error)
          → s.spec.create_new_postgresql ≡ true
          → (E.list_all postgres_cluster w).0 ≡ err e
          → (update_synapse_status E failed w).0.0 ≡ none
          → let r = reconcile E req w in
            (r.0 ≡ some (E.evaluate E.do_not_requeue)) × ((E.get synapse req r.1).0 ≡ ok failed)
      unfolding refuse_postgres
      reconcile_without_operator e asks absent written =
          rw (reconcile-refuse e asks absent) (refl, latest-failed written)
