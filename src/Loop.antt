-- ===== src/Loop.antt =====
-- The loop that ends every `Reconcile`: the subreconcilers run in order, and the first result that
-- halts or requeues ends the reconciliation.
pub mod Keeps
pub mod Outcomes
use synapse_operator.Base.{Option, none, some, List, [], ◌∷◌, if◌then◌else◌}
use synapse_operator.Kube.{NamespacedName}
use synapse_operator.Env.{Env, Outcome, Verdict}
use synapse_operator.Exec.{Ending, returned, panicked, Sub}

module _ (E : Env) where
  -- The result of a reconciliation and the cluster after it: none is a panic.
  abbrev pub Run : Type 0
  Run = Option Verdict × E.World

  unfoldable pub run_all : List (Sub E) → NamespacedName → E.World → Run
  run_all [] req w = (some (E.evaluate E.do_not_requeue), w)
  run_all (f ∷ fs) req w =
      let (ending, w') = f req w in
      elim ending [
        | panicked ↦ (none, w')
        | returned o ↦
            let rest = run_all fs req w' in
            if E.should_halt_or_requeue o then (some (E.evaluate o), w') else rest
      ]
