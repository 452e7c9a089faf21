-- ===== src/Synapse/Access/Keeps.antt =====
-- Reading a Synapse and writing its status keep what a write of that status keeps.
use synapse_operator.Base.{
  ◌≡◌, refl, sym, subst, Bool, true, false, Option, none, some, inl, inr, Bool-cases,
}
use synapse_operator.Go.{Error, Result-cases}
use synapse_operator.Kube.{NamespacedName}
use synapse_operator.Api.{Synapse, synapse_status_eq}
use synapse_operator.Env.{synapse, key_of, Env, IsKeyed, IsSubreconciler}
use synapse_operator.Exec.Keeps.{Rights, Respects, Keeps, Any, Yields, Keeps-checked}
use synapse_operator.Synapse.Access.{
  empty_synapse, get_latest_synapse, latest_synapse, flagged, patch_if_changed,
  update_synapse_status, update_status_of_synapse, flow_of_update, publish_status,
}

module _ (E : Env) (N : IsKeyed E.client) (L : IsSubreconciler E.sub) {R : Rights}
    {P : E.World → Type 0} (H : Respects E.client R P) where
  pub get_latest_synapse-keeps :
      (req : NamespacedName) (s : Synapse) (w : E.World) → P w → P (get_latest_synapse E req s w).1
  unfolding get_latest_synapse
  get_latest_synapse-keeps req s w h = elim (Result-cases (E.get synapse req w).0) [
    | inl (latest, found) ↦ rw (found, get_latest_synapse) (H.get_keeps synapse req w h)
    | inr (e, failed) ↦ rw (failed, get_latest_synapse) (H.get_keeps synapse req w h)
  ]

  -- It goes on only with the Synapse of the request.
  pub get_latest_synapse-key :
      (req : NamespacedName) (s : Synapse) (w : E.World)
      → E.should_halt_or_requeue (get_latest_synapse E req s w).0.0 ≡ false
      → key_of synapse (get_latest_synapse E req s w).0.1 ≡ req
  unfolding get_latest_synapse
  get_latest_synapse-key req s w goes_on = elim (Result-cases (E.get synapse req w).0) [
    | inl (latest, found) ↦ rw (found, get_latest_synapse) (N.asked_for synapse req latest w found)
    | inr (e, failed) ↦ elim (Bool-cases (E.is_not_found e)) [
      | inl missing ↦
          cc (rw (failed, missing, get_latest_synapse, L.halt-do_not_requeue) at goes_on)
      | inr other ↦
          cc (rw (failed, other, get_latest_synapse, L.halt-requeue_with_error e) at goes_on)
    ]
  ]

  pub Keeps-latest_synapse :
      (req : NamespacedName) → Keeps P (λ s. key_of synapse s ≡ req) (latest_synapse E req)
  unfolding latest_synapse
  Keeps-latest_synapse req =
      Keeps-checked E (get_latest_synapse E req empty_synapse)
        (get_latest_synapse-keeps req empty_synapse) (get_latest_synapse-key req empty_synapse)

  module _ (s : Synapse) (allowed : R.status synapse (key_of synapse s)) where
    flagged-world : (p : Option Error × E.World) → (flagged E p).1 ≡ p.1
    unfolding flagged
    flagged-world (none, w) = refl
    flagged-world (some e, w) = refl

    patch_if_changed-keeps :
        (current : Synapse) (w : E.World) → P w → P (patch_if_changed E s current w).1
    unfolding patch_if_changed
    patch_if_changed-keeps current w h =
        elim (Bool-cases (synapse_status_eq s.status current.status)) [
          | inl same ↦ rw same h
          | inr differs ↦ rw differs (
              subst P (sym (flagged-world (E.patch_status synapse s current w)))
                (H.status_keeps synapse s current w allowed h))
        ]

    pub update_synapse_status-keeps : (w : E.World) → P w → P (update_synapse_status E s w).1
    unfolding update_synapse_status
    update_synapse_status-keeps w h =
        let read = H.get_keeps synapse (key_of synapse s) w h in
        elim (Result-cases (E.get synapse (key_of synapse s) w).0) [
          | inl (current, found) ↦
              rw (found, update_synapse_status) (patch_if_changed-keeps current _ read)
          | inr (e, failed) ↦ rw (failed, update_synapse_status) read
        ]

    pub update_status_of_synapse-keeps : (w : E.World) → P w → P (update_status_of_synapse E s w).1
    unfolding update_status_of_synapse
    update_status_of_synapse-keeps w h = update_synapse_status-keeps w h

    flow_of_update-Yields : (u : Option Error × Bool) → Yields Any (flow_of_update E u)
    flow_of_update-Yields (some e, patched) = tt
    flow_of_update-Yields (none, true) = tt
    flow_of_update-Yields (none, false) = tt

    pub Keeps-publish_status : Keeps P Any (publish_status E s)
    unfolding publish_status
    Keeps-publish_status = record {
      at = λ w h.
          (update_synapse_status-keeps w h, flow_of_update-Yields (update_synapse_status E s w).0);
    }
