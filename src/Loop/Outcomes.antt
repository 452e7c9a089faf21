-- ===== src/Loop/Outcomes.antt =====
-- How the loop ends.
use synapse_operator.Base.{
  ◌≡◌, refl, ap, true, false, none, some, List, [], ◌∷◌, ◌++◌, ◌⊎◌, inl, inr, Bool-cases,
}
use synapse_operator.Kube.{NamespacedName}
use synapse_operator.Env.{Env, Outcome}
use synapse_operator.Exec.{Ending, returned, panicked, Sub}
use synapse_operator.Loop.{Run, run_all}

module _ (E : Env) (req : NamespacedName) where
  -- Every subreconciler of the list goes on, and they take the cluster from `w` to `w'`.
  abbrev pub Passes : List (Sub E) → E.World → E.World → Type 0
  Passes [] w w' = w ≡ w'
  Passes (f ∷ fs) w w' =
      (o : Outcome) × ((f req w).0 ≡ returned o)
      × (E.should_halt_or_requeue o ≡ false)
      × Passes fs (f req w).1 w'

  -- One subreconciler ends the reconciliation with this result.
  abbrev pub EndsWith : Ending → E.World → Run E → Type 0
  EndsWith panicked w r = r ≡ (none, w)
  EndsWith (returned o) w r = (E.should_halt_or_requeue o ≡ true) × (r ≡ (some (E.evaluate o), w))

  -- The part of the list before the first that does not go on, that one, the rest, and the cluster
  -- that it runs in.
  abbrev pub Stopped : List (Sub E) → E.World → Run E → Type 0
  Stopped fs w r =
      (before : List (Sub E)) × (f : Sub E) × (after : List (Sub E)) × (w' : E.World) × (fs
        ≡ before ++ f ∷ after)
      × Passes before w w'
      × EndsWith (f req w').0 (f req w').1 r

  -- The two ways in which the loop ends.
  abbrev pub Ends : List (Sub E) → E.World → Run E → Type 0
  Ends fs w r =
      ((w' : E.World) × Passes fs w w' × (r ≡ (some (E.evaluate E.do_not_requeue), w')))
      ⊎ Stopped fs w r

  pub run_all-Passes :
      (fs gs : List (Sub E)) (w w' : E.World)
      → Passes fs w w'
      → run_all E (fs ++ gs) req w ≡ run_all E gs req w'
  unfolding run_all
  run_all-Passes [] gs w w' p = ap (run_all E gs req) p
  run_all-Passes (f ∷ fs) gs w w' (o, returns, goes_on, rest) =
      rw (returns, goes_on, run_all) (run_all-Passes fs gs (f req w).1 w' rest)

  run_all-cons :
      (f : Sub E) (fs : List (Sub E)) (w : E.World) (ending : Ending)
      → (f req w).0 ≡ ending
      → Ends fs (f req w).1 (run_all E fs req (f req w).1)
      → Ends (f ∷ fs) w (run_all E (f ∷ fs) req w)
  unfolding run_all
  run_all-cons f fs w panicked e ih = inr ([], f, fs, w, refl, refl, rw (e, run_all))
  run_all-cons f fs w (returned o) e ih = elim (Bool-cases (E.should_halt_or_requeue o)) [
    | inl halts ↦ inr ([], f, fs, w, refl, refl, rw e (halts, rw halts))
    | inr goes_on ↦ elim ih [
      | inl (w', p, r) ↦ inl (w', (o, e, goes_on, p), rw (e, goes_on, run_all) r)
      | inr (before, f', after, w', parts, p, ends) ↦ inr (
        f ∷ before,
        f',
        after,
        w',
        ap (λ l. f ∷ l) parts,
        (o, e, goes_on, p),
        rw (e, goes_on, run_all) ends,
      )
    ]
  ]

  -- Either every subreconciler goes on and nothing is requeued, or the reconciliation ends with
  -- the result of the first one that halts, requeues or panics, and those behind it do not run.
  pub run_all-Ends : (fs : List (Sub E)) (w : E.World) → Ends fs w (run_all E fs req w)
  unfolding run_all
  run_all-Ends [] w = inl (w, refl, refl)
  run_all-Ends (f ∷ fs) w = run_all-cons f fs w (f req w).0 refl (run_all-Ends fs (f req w).1)
