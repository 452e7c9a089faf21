-- ===== src/Synapse/Controller/Deployed.antt =====
-- What a reconciliation of a Synapse has brought about when all its steps go on.
use synapse_operator.Base.{
  some, ◌⊎◌, inr, ◌≡◌, ◌≢◌, sym, ap, subst, ◌∙◌, false, List, [], ◌∷◌, ◌++◌, map, inl,
}
use synapse_operator.Go.{Result, ok}
use synapse_operator.Kube.{NamespacedName, Service, PersistentVolumeClaim, Deployment}
use synapse_operator.Api.{Synapse, SynapseStatus}
use synapse_operator.Env.{
  Kind, Obj, synapse, service, claim, deployment, key_of, Env, IsQuiet, IsIsolated, IsSubreconciler,
  IsMerge,
}
use synapse_operator.Exec.{Sub}
use synapse_operator.Exec.Stays.{IsQuiet-IsKeyed, Stored-Respects}
use synapse_operator.Loop.Outcomes.{Passes, Stopped, run_all-Ends}
use synapse_operator.Synapse.Controller.Endings.{HasOperator, reconcile-run_steps}
use synapse_operator.Synapse.Status.{as_running}
use synapse_operator.Synapse.Status.Converge.{after_update, running-after_update}
use synapse_operator.Synapse.Resources.{
  meta_for_synapse, service_for_synapse, persistent_volume_claim_for_synapse,
}
use synapse_operator.Synapse.Deployment.{deployment_for_synapse}
use synapse_operator.Synapse.Children.{
  reconcile_child, reconcile_synapse_service, reconcile_synapse_pvc, reconcile_synapse_deployment,
}
use synapse_operator.Synapse.Children.Keeps.{reconcile_child-keeps}
use synapse_operator.Synapse.Controller.{
  reconcile, run_steps, Step, make_service, make_pvc, make_deployment, status_running,
  status_bridges, when, config_steps, later_steps, steps_for, perform,
}
use synapse_operator.Synapse.Controller.EndState.{
  Settled, child-found, child-Settled, update-goes_on, update-unchanged,
}

-- The specification of a reconciliation: the stored Synapse is RUNNING, needs no reconciliation, and
-- its Service, its claim and its Deployment are as it asks for.
abbrev pub Deployed : (E : Env) → NamespacedName → Synapse → E.World → Type 0
Deployed E req s w =
    ((E.get synapse req w).0 ≡ ok s)
    × (s.status.state ≡ "RUNNING")
    × (s.status.reason ≡ "")
    × (s.status.needs_reconcile ≡ false)
    × Settled E service (service_for_synapse E s (meta_for_synapse s)) w
    × Settled E claim (persistent_volume_claim_for_synapse E s (meta_for_synapse s)) w
    × Settled E deployment (deployment_for_synapse E s (meta_for_synapse s)) w

-- The steps that end every list.
abbrev last_steps : List Step
last_steps = make_service ∷ make_pvc ∷ make_deployment ∷ status_running ∷ []

module _ (E : Env) (req : NamespacedName) where
  Passes-behind :
      {A : Type 0} (f : A → Sub E) (before after : List A) (w w' : E.World)
      → Passes E req (map f (before ++ after)) w w'
      → (w₀ : E.World) × Passes E req (map f after) w₀ w'
  Passes-behind f [] after w w' passes = (w, passes)
  Passes-behind f (a ∷ before) after w w' (o, returns, goes_on, passes) =
      Passes-behind f before after (f a req w).1 w' passes

module _ (E : Env) (Q : IsQuiet E.client) (I : IsIsolated E.client) (L : IsSubreconciler E.sub)
    (M : IsMerge E) (req : NamespacedName) where
  -- A subreconciler of a child resource leaves the objects of other kinds as they are.
  child-stays :
      (k k' : Kind) (n : NamespacedName) (x : Result (Obj k))
      (desired_for : Synapse → Result (Obj k')) (w : E.World)
      → k ≢ k'
      → (E.get k n w).0 ≡ x
      → (E.get k n (reconcile_child E k' desired_for req w).1).0 ≡ x
  child-stays k k' n x desired_for w other =
      reconcile_child-keeps E (IsQuiet-IsKeyed E.client Q) L M (Stored-Respects E.client k n x Q I)
        req k' desired_for (λ s d asked made. inl other) w

  child-stays-Settled :
      (k k' : Kind) (wanted : Result (Obj k)) (desired_for : Synapse → Result (Obj k'))
      (w : E.World)
      → k ≢ k'
      → Settled E k wanted w
      → Settled E k wanted (reconcile_child E k' desired_for req w).1
  child-stays-Settled k k' wanted desired_for w other (desired, stored, made, found, merged) = (
    desired,
    stored,
    made,
    child-stays k k' (key_of k desired) (ok stored) desired_for w other found,
    merged,
  )

  last_steps-Deployed :
      (w w' : E.World)
      → Passes E req (map (perform E) last_steps) w w'
      → (s : Synapse) × Deployed E req s w'
  unfolding perform reconcile_synapse_service reconcile_synapse_pvc reconcile_synapse_deployment
      after_update as_running
  last_steps-Deployed w w' (o₁, r₁, g₁, (o₂, r₂, g₂, (o₃, r₃, g₃, (o₄, r₄, g₄, same)))) =
      let service_of : Synapse → Result Service =
        λ s. service_for_synapse E s (meta_for_synapse s) in
      let claim_of : Synapse → Result PersistentVolumeClaim =
        λ s. persistent_volume_claim_for_synapse E s (meta_for_synapse s) in
      let deployment_of : Synapse → Result Deployment =
        λ s. deployment_for_synapse E s (meta_for_synapse s) in
      let w₁ = (reconcile_child E service service_of req w).1 in
      let w₂ = (reconcile_child E claim claim_of req w₁).1 in
      let w₃ = (reconcile_child E deployment deployment_of req w₂).1 in
      let (s, found) = child-found E Q L req service service_of w o₁ r₁ g₁ in
      let found₁ = child-stays synapse service req (ok s) service_of w (λ e. cc) found in
      let found₂ = child-stays synapse claim req (ok s) claim_of w₁ (λ e. cc) found₁ in
      let found₃ = child-stays synapse deployment req (ok s) deployment_of w₂ (λ e. cc) found₂ in
      let service₃ =
        child-stays-Settled service deployment (service_of s) deployment_of w₂ (λ e. cc)
          (child-stays-Settled service claim (service_of s) claim_of w₁ (λ e. cc)
            (child-Settled E Q L req service service_of w o₁ r₁ g₁ M s found)) in
      let claim₃ =
        child-stays-Settled claim deployment (claim_of s) deployment_of w₂ (λ e. cc)
          (child-Settled E Q L req claim claim_of w₁ o₂ r₂ g₂ M s found₁) in
      let deployment₃ = child-Settled E Q L req deployment deployment_of w₂ o₃ r₃ g₃ M s found₂ in
      let run = running-after_update E Q L req s w₃ found₃ in
      let stored : (E.get synapse (key_of synapse s) w₃).0 ≡ ok s =
        subst (λ n. (E.get synapse n w₃).0 ≡ ok s) (sym (Q.key-get synapse req s w₃ found₃))
          found₃ in
      let returns = sym (ap (λ r. r.0) run) ∙ r₄ in
      let status = sym (update-goes_on E Q L req (as_running s) s w₃ stored o₄ returns g₄) in
      let end : w₃ ≡ w' =
        sym (update-unchanged E Q L req (as_running s) s w₃ stored o₄ returns g₄)
        ∙ (sym (ap (λ r. r.1) run) ∙ same) in
      (
        s,
        subst (λ v. Deployed E req s v) end
            (
              found₃,
              ap (λ (st : SynapseStatus). st.state) status,
              ap (λ (st : SynapseStatus). st.reason) status,
              ap (λ (st : SynapseStatus). st.needs_reconcile) status,
              service₃,
              claim₃,
              deployment₃,
            ),
      )

  -- When all steps of a list go on, the cluster has what the specification asks for.
  pub all_steps-Deployed :
      (s₀ : Synapse) (w w' : E.World)
      → Passes E req (map (perform E) (steps_for s₀)) w w'
      → (s : Synapse) × Deployed E req s w'
  unfolding steps_for later_steps
  all_steps-Deployed s₀ w w' passes =
      let behind = Passes-behind E req (perform E) in
      let (w₁, p₁) = behind (config_steps s₀.spec.homeserver.config_map) _ w w' passes in
      let (w₂, p₂) = behind (status_bridges ∷ []) _ w₁ w' p₁ in
      let (w₃, p₃) = behind (when s₀.spec.create_new_postgresql _) _ w₂ w' p₂ in
      let (w₄, p₄) = behind (when s₀.status.bridges.heisenbridge.enabled _) _ w₃ w' p₃ in
      let (w₅, p₅) = behind (when s₀.status.bridges.mautrix_signal.enabled _) _ w₄ w' p₄ in
      let (w₆, p₆) = behind (when s₀.spec.is_openshift _) _ w₅ w' p₅ in last_steps-Deployed w₆ w' p₆

  -- In a quiet cluster where writes touch no other objects, a reconciliation of a stored Synapse that
  -- asks for no PostgreSQL, or with postgres-operator installed, ends in one of two ways. Either all
  -- its steps have gone on, nothing is requeued, and the stored Synapse is RUNNING, with no reason and
  -- no mark that it needs to be reconciled, and its Service, its claim and its Deployment are stored as
  -- the Synapse asks for, so that reconciling them once more would change nothing. Or the first step
  -- that halts, asks to be tried again or panics has ended it, and the steps behind it have not run.
  pub reconcile-Deployed :
      (s₀ : Synapse) (w : E.World)
      → (found : (E.get synapse req w).0 ≡ ok s₀) → HasOperator E Q L req w s₀ found
      → ((s : Synapse) × Deployed E req s (reconcile E req w).1
          × ((reconcile E req w).0 ≡ some (E.evaluate E.do_not_requeue)))
        ⊎ Stopped E req (map (perform E) (steps_for s₀)) w (reconcile E req w)
  unfolding run_steps
  reconcile-Deployed s₀ w found has =
      let same = reconcile-run_steps E Q L req w s₀ found has in
      elim (run_all-Ends E req (map (perform E) (steps_for s₀)) w) [
        | inl (w', passes, ends) ↦
            let (s, deployed) = all_steps-Deployed s₀ w w' passes in
            let all = same ∙ ends in
            inl (
              s,
              subst (λ v. Deployed E req s v) (sym (ap (λ r. r.1) all)) deployed,
              ap (λ r. r.0) all,
            )
        | inr stopped ↦
            inr (subst (λ r. Stopped E req (map (perform E) (steps_for s₀)) w r) (sym same) stopped)
      ]
