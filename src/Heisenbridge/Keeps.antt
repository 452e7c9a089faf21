-- ===== src/Heisenbridge/Keeps.antt =====
-- Reading a Heisenbridge, writing its status and marking its Synapse keep what such writes keep.
use synapse_operator.Base.{String, ◌≡◌, false, inl, inr, Bool-cases}
use synapse_operator.Go.{Result-cases}
use synapse_operator.Kube.{NamespacedName}
use synapse_operator.Api.{Heisenbridge, heisenbridge_status_eq}
use synapse_operator.Env.{synapse, heisenbridge, key_of, Env, IsKeyed, IsSubreconciler}
use synapse_operator.Exec.{try}
use synapse_operator.Exec.Keeps.{
  Rights, Respects, Keeps, Any, Keeps-bind, Keeps-run, Keeps-checked, Keeps-try, Keeps-attempt,
}
use synapse_operator.Synapse.Access.{update_status_of_synapse}
use synapse_operator.Synapse.Access.Keeps.{update_status_of_synapse-keeps}
use synapse_operator.Heisenbridge.Access.{
  empty_heisenbridge, get_latest_heisenbridge, latest_heisenbridge, patch_if_other,
  update_heisenbridge_status, set_heisenbridge_failed, fetch_synapse_instance, needing_reconcile,
  trigger_synapse_reconciliation,
}

module _ (E : Env) (N : IsKeyed E.client) (L : IsSubreconciler E.sub) {R : Rights}
    {P : E.World → Type 0} (H : Respects E.client R P) where
  pub get_latest_heisenbridge-keeps :
      (req : NamespacedName) (b : Heisenbridge) (w : E.World)
      → P w
      → P (get_latest_heisenbridge E req b w).1
  unfolding get_latest_heisenbridge
  get_latest_heisenbridge-keeps req b w h = elim (Result-cases (E.get heisenbridge req w).0) [
    | inl (latest, found) ↦ rw (found, get_latest_heisenbridge) (H.get_keeps heisenbridge req w h)
    | inr (e, failed) ↦ rw (failed, get_latest_heisenbridge) (H.get_keeps heisenbridge req w h)
  ]

  -- It goes on only with the Heisenbridge of the request.
  pub get_latest_heisenbridge-key :
      (req : NamespacedName) (b : Heisenbridge) (w : E.World)
      → E.should_halt_or_requeue (get_latest_heisenbridge E req b w).0.0 ≡ false
      → key_of heisenbridge (get_latest_heisenbridge E req b w).0.1 ≡ req
  unfolding get_latest_heisenbridge
  get_latest_heisenbridge-key req b w goes_on = elim (Result-cases (E.get heisenbridge req w).0) [
    | inl (latest, found) ↦
        rw (found, get_latest_heisenbridge) (N.asked_for heisenbridge req latest w found)
    | inr (e, failed) ↦ elim (Bool-cases (E.is_not_found e)) [
      | inl missing ↦
          cc (rw (failed, missing, get_latest_heisenbridge, L.halt-do_not_requeue) at goes_on)
      | inr other ↦
          cc (rw (failed, other, get_latest_heisenbridge, L.halt-requeue_with_error e) at goes_on)
    ]
  ]

  pub Keeps-latest_heisenbridge :
      (req : NamespacedName)
      → Keeps P (λ b. key_of heisenbridge b ≡ req) (latest_heisenbridge E req)
  unfolding latest_heisenbridge
  Keeps-latest_heisenbridge req =
      Keeps-checked E (get_latest_heisenbridge E req empty_heisenbridge)
        (get_latest_heisenbridge-keeps req empty_heisenbridge)
        (get_latest_heisenbridge-key req empty_heisenbridge)

  patch_if_other-keeps :
      (b current : Heisenbridge) (w : E.World)
      → R.status heisenbridge (key_of heisenbridge b)
      → P w
      → P (patch_if_other E b current w).1
  unfolding patch_if_other
  patch_if_other-keeps b current w may h =
      elim (Bool-cases (heisenbridge_status_eq b.status current.status)) [
        | inl same ↦ rw same h
        | inr differs ↦ rw differs (H.status_keeps heisenbridge b current w may h)
      ]

  update_heisenbridge_status-keeps :
      (b : Heisenbridge) (w : E.World)
      → R.status heisenbridge (key_of heisenbridge b)
      → P w
      → P (update_heisenbridge_status E b w).1
  unfolding update_heisenbridge_status
  update_heisenbridge_status-keeps b w may h =
      let read = H.get_keeps heisenbridge (key_of heisenbridge b) w h in
      elim (Result-cases (E.get heisenbridge (key_of heisenbridge b) w).0) [
        | inl (current, found) ↦
            rw (found, update_heisenbridge_status) (patch_if_other-keeps b current _ may read)
        | inr (e, failed) ↦ rw (failed, update_heisenbridge_status) read
      ]

  pub set_heisenbridge_failed-keeps :
      (b : Heisenbridge) (reason : String) (w : E.World)
      → R.status heisenbridge (key_of heisenbridge b)
      → P w
      → P (set_heisenbridge_failed E b reason w).1
  unfolding set_heisenbridge_failed
  set_heisenbridge_failed-keeps b reason w may h = update_heisenbridge_status-keeps _ w may h

  pub trigger-keeps :
      (req : NamespacedName)
      → ((n : NamespacedName) → R.status synapse n)
      → (w : E.World) → P w
      → P (trigger_synapse_reconciliation E req w).1
  unfolding trigger_synapse_reconciliation fetch_synapse_instance
  trigger-keeps req may w = Keeps-run E _ w (
      Keeps-bind (latest_heisenbridge E req) _ (Keeps-latest_heisenbridge req) (λ b _.
        Keeps-bind (try E (fetch_synapse_instance E b)) _
          (Keeps-try E {Post = Any} (fetch_synapse_instance E b)
            (λ w' h. H.get_keeps synapse _ w' h) (λ w' s _. tt))
          (λ s _.
            Keeps-attempt E (update_status_of_synapse E (needing_reconcile s))
              (update_status_of_synapse-keeps E N L H (needing_reconcile s) (may _)))))
