-- ===== src/Synapse/Access/Publish.antt =====
-- What reading a Synapse and writing its status do in a quiet cluster.
use synapse_operator.Base.{
  ◌≡◌, ◌≢◌, ◌↔◌, ◌⊎◌, refl, sym, ap, ◌∙◌, Bool, true, false, Option, none, some, inl, inr,
  Bool-cases,
}
use synapse_operator.Go.{Error, ok, err}
use synapse_operator.Kube.{NamespacedName}
use synapse_operator.Api.{Synapse, SynapseStatus, synapse_status_eq, synapse_status_eq_iff}
use synapse_operator.Env.{synapse, key_of, Env, Outcome, IsSubreconciler, IsQuiet}
use synapse_operator.Exec.{next, halt}
use synapse_operator.Synapse.Access.{
  get_latest_synapse, latest_synapse, flagged, patch_if_changed, update_synapse_status,
}

module _ (E : Env) (Q : IsQuiet E.client) where
  pub latest_synapse-found :
      IsSubreconciler E.sub
      → (req : NamespacedName) (s : Synapse) (w : E.World) → (E.get synapse req w).0 ≡ ok s
      → latest_synapse E req w ≡ (next s, w)
  unfolding latest_synapse
  latest_synapse-found L req s w found =
      rw (found, latest_synapse, get_latest_synapse, L.halt-continue_reconciling, Q.get_world)

  -- A Synapse that cannot be read ends the subreconciler with a result that halts.
  pub latest_synapse-unread :
      IsSubreconciler E.sub
      → (req : NamespacedName) (e : Error) (w : E.World) → (E.get synapse req w).0 ≡ err e
      → (o : Outcome) × ((latest_synapse E req w).0 ≡ halt o) × (E.should_halt_or_requeue o ≡ true)
  unfolding latest_synapse
  latest_synapse-unread L req e w failed = elim (Bool-cases (E.is_not_found e)) [
    | inl missing ↦ (
      E.do_not_requeue,
      rw (failed, missing, latest_synapse, get_latest_synapse, L.halt-do_not_requeue),
      L.halt-do_not_requeue,
    )
    | inr other ↦ (
      E.requeue_with_error e,
      rw (failed, other, latest_synapse, get_latest_synapse, L.halt-requeue_with_error e),
      L.halt-requeue_with_error e,
    )
  ]

  update_synapse_status-found :
      (s current : Synapse) (w : E.World)
      → (E.get synapse (key_of synapse s) w).0 ≡ ok current
      → update_synapse_status E s w ≡ patch_if_changed E s current w
  unfolding update_synapse_status
  update_synapse_status-found s current w found = rw (found, update_synapse_status, Q.get_world)

  -- A status that is there already is not written.
  pub update_synapse_status_same :
      (s current : Synapse) (w : E.World)
      → (E.get synapse (key_of synapse s) w).0 ≡ ok current
      → s.status ≡ current.status
      → update_synapse_status E s w ≡ ((none, false), w)
  update_synapse_status_same s current w found same =
      rw (update_synapse_status-found s current w found)
        (unfold patch_if_changed in rw ((synapse_status_eq_iff s.status current.status).1 same))

  flagged-cases :
      (p : Option Error × E.World)
      → ((flagged E p).0 ≡ (none, true)) ⊎ ((e : Error) × ((flagged E p).0 ≡ (some e, false)))
  unfolding flagged
  flagged-cases (none, w) = inl refl
  flagged-cases (some e, w) = inr (e, refl)

  -- A status that is another one is patched, or the patch fails.
  pub update_synapse_status-differs :
      (s current : Synapse) (w : E.World)
      → (E.get synapse (key_of synapse s) w).0 ≡ ok current
      → synapse_status_eq s.status current.status ≡ false
      → ((update_synapse_status E s w).0 ≡ (none, true))
        ⊎ ((e : Error) × ((update_synapse_status E s w).0 ≡ (some e, false)))
  update_synapse_status-differs s current w found differs =
      rw (update_synapse_status-found s current w found)
        (unfold patch_if_changed in rw differs (flagged-cases (E.patch_status synapse s current w)))

  -- What an update that returned no error has left: the flag says whether the status was another
  -- one, and the stored Synapse has the new status and is the same apart from it.
  abbrev pub Updated : Synapse → Synapse → (Option Error × Bool) × E.World → Type 0
  Updated s current u =
      ((E.get synapse (key_of synapse s) u.1).0 ≡ ok (record current { status = s.status }))
      × ((u.0.1 ≡ true) ↔ (s.status ≢ current.status))

  flagged-Updated :
      (s current : Synapse) (p : Option Error × E.World)
      → s.status ≢ current.status
      → (p.0 ≡ none
          → (E.get synapse (key_of synapse s) p.1).0 ≡ ok (record current { status = s.status }))
      → (flagged E p).0.0 ≡ none
      → Updated s current (flagged E p)
  unfolding flagged
  flagged-Updated s current (none, w) differs stored h =
      (stored refl, ((λ _. differs), (λ _. refl)))
  flagged-Updated s current (some e, w) differs stored h = cc

  patch_if_changed-Updated :
      (s current : Synapse) (w : E.World)
      → (E.get synapse (key_of synapse s) w).0 ≡ ok current
      → (patch_if_changed E s current w).0.0 ≡ none
      → Updated s current (patch_if_changed E s current w)
  unfolding patch_if_changed
  patch_if_changed-Updated s current w found h =
      elim (Bool-cases (synapse_status_eq s.status current.status)) [
        | inl same ↦
            let equal = (synapse_status_eq_iff s.status current.status).0 same in
            rw same (
              found ∙ ap (λ (st : SynapseStatus). ok (record current { status = st })) (sym equal),
              ((λ p. cc), (λ differs. absurd (differs equal))),
            )
        | inr differs ↦ rw differs (
            flagged-Updated s current (E.patch_status synapse s current w)
              (λ p. cc (rw ((synapse_status_eq_iff s.status current.status).1 p) at differs))
              (Q.get-patch_status s current w found) (rw differs at h))
      ]

  -- In a quiet cluster an update of the status that returns no error has stored the status, has
  -- changed nothing else of the Synapse, and reports a patch exactly if the status was another one.
  pub update_synapse_status-Updated :
      (s current : Synapse) (w : E.World)
      → (E.get synapse (key_of synapse s) w).0 ≡ ok current
      → (update_synapse_status E s w).0.0 ≡ none
      → Updated s current (update_synapse_status E s w)
  update_synapse_status-Updated s current w found h =
      let same_call = update_synapse_status-found s current w found in
      rw same_call (patch_if_changed-Updated s current w found (rw same_call at h))
