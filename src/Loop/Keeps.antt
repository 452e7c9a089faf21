-- ===== src/Loop/Keeps.antt =====
-- What every subreconciler of the list keeps, the loop keeps.
use synapse_operator.Base.{◌≡◌, refl, ◌⊎◌, List, [], ◌∷◌, map, Bool-cases, inl, inr}
use synapse_operator.Kube.{NamespacedName}
use synapse_operator.Env.{Env, Outcome}
use synapse_operator.Exec.{Ending, returned, panicked, Sub}
use synapse_operator.Loop.{run_all}

Ending-cases : (ending : Ending) → (ending ≡ panicked) ⊎ ((o : Outcome) × (ending ≡ returned o))
Ending-cases panicked = inl refl
Ending-cases (returned o) = inr (o, refl)

module _ (E : Env) {P : E.World → Type 0} (req : NamespacedName) where
  pub run_all-keeps :
      {A : Type 0} (perform : A → Sub E) (steps : List A)
      → ((step : A) (w : E.World) → P w → P (perform step req w).1)
      → (w : E.World) → P w
      → P (run_all E (map perform steps) req w).1
  unfolding run_all
  run_all-keeps perform [] kept w h = h
  run_all-keeps perform (step ∷ steps) kept w h =
      let here = kept step w h in
      let later = run_all-keeps perform steps kept (perform step req w).1 here in
      elim (Ending-cases (perform step req w).0) [
        | inl panics ↦ rw (panics, run_all) here
        | inr (o, returns) ↦ elim (Bool-cases (E.should_halt_or_requeue o)) [
          | inl halts ↦ rw (returns, run_all) (rw halts here)
          | inr goes_on ↦ rw (returns, run_all) (rw goes_on later)
        ]
      ]
