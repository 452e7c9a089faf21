-- ===== src/MautrixSignal/Keeps.antt =====
-- Reading a MautrixSignal, writing its status and marking its Synapse keep what such writes keep.
use synapse_operator.Base.{
  Bool, ◌≡◌, refl, sym, subst, true, false, Option, none, some, inl, inr, Bool-cases,
}
use synapse_operator.Go.{Error, Result-cases}
use synapse_operator.Kube.{NamespacedName}
use synapse_operator.Api.{MautrixSignal, mautrix_signal_status_eq}
use synapse_operator.Env.{synapse, mautrix_signal, key_of, Env, IsKeyed, IsSubreconciler}
use synapse_operator.Exec.{or_requeue, try}
use synapse_operator.Exec.Keeps.{
  Rights, Respects, Keeps, Any, Yields, Keeps-bind, Keeps-run, Keeps-checked, Keeps-or_requeue,
  Keeps-try, Keeps-attempt,
}
use synapse_operator.Synapse.Access.{get_synapse_server_name, update_status_of_synapse}
use synapse_operator.Synapse.Access.Keeps.{update_status_of_synapse-keeps}
use synapse_operator.Heisenbridge.Access.{needing_reconcile}
use synapse_operator.MautrixSignal.Access.{
  empty_mautrix_signal, get_latest_mautrix_signal, latest_mautrix_signal, flag_patch,
  patch_mautrix_signal, update_mautrix_signal_status, fetch_synapse_of, trigger_from_mautrix_signal,
  flow_of_status, publish_mautrix_signal, with_synapse_values, build_mautrix_signal_status,
}

module _ (E : Env) (N : IsKeyed E.client) (L : IsSubreconciler E.sub) {R : Rights}
    {P : E.World → Type 0} (H : Respects E.client R P) where
  pub get_latest_mautrix_signal-keeps :
      (req : NamespacedName) (b : MautrixSignal) (w : E.World)
      → P w
      → P (get_latest_mautrix_signal E req b w).1
  unfolding get_latest_mautrix_signal
  get_latest_mautrix_signal-keeps req b w h = elim (Result-cases (E.get mautrix_signal req w).0) [
    | inl (latest, found) ↦
        rw (found, get_latest_mautrix_signal) (H.get_keeps mautrix_signal req w h)
    | inr (e, failed) ↦ rw (failed, get_latest_mautrix_signal) (H.get_keeps mautrix_signal req w h)
  ]

  -- It goes on only with the MautrixSignal of the request.
  pub get_latest_mautrix_signal-key :
      (req : NamespacedName) (b : MautrixSignal) (w : E.World)
      → E.should_halt_or_requeue (get_latest_mautrix_signal E req b w).0.0 ≡ false
      → key_of mautrix_signal (get_latest_mautrix_signal E req b w).0.1 ≡ req
  unfolding get_latest_mautrix_signal
  get_latest_mautrix_signal-key req b w goes_on =
      elim (Result-cases (E.get mautrix_signal req w).0) [
        | inl (latest, found) ↦
            rw (found, get_latest_mautrix_signal) (N.asked_for mautrix_signal req latest w found)
        | inr (e, failed) ↦ elim (Bool-cases (E.is_not_found e)) [
          | inl missing ↦
              cc (rw (failed, missing, get_latest_mautrix_signal, L.halt-do_not_requeue) at goes_on)
          | inr other ↦ cc (
              rw (failed, other, get_latest_mautrix_signal, L.halt-requeue_with_error e) at goes_on)
        ]
      ]

  pub Keeps-latest_mautrix_signal :
      (req : NamespacedName)
      → Keeps P (λ b. key_of mautrix_signal b ≡ req) (latest_mautrix_signal E req)
  unfolding latest_mautrix_signal
  Keeps-latest_mautrix_signal req =
      Keeps-checked E (get_latest_mautrix_signal E req empty_mautrix_signal)
        (get_latest_mautrix_signal-keeps req empty_mautrix_signal)
        (get_latest_mautrix_signal-key req empty_mautrix_signal)

  flag_patch-world : (p : Option Error × E.World) → (flag_patch E p).1 ≡ p.1
  unfolding flag_patch
  flag_patch-world (none, w) = refl
  flag_patch-world (some e, w) = refl

  patch_mautrix_signal-keeps :
      (b current : MautrixSignal) (w : E.World)
      → R.status mautrix_signal (key_of mautrix_signal b)
      → P w
      → P (patch_mautrix_signal E b current w).1
  unfolding patch_mautrix_signal
  patch_mautrix_signal-keeps b current w may h =
      elim (Bool-cases (mautrix_signal_status_eq b.status current.status)) [
        | inl same ↦ rw same h
        | inr differs ↦ rw differs (
            subst P (sym (flag_patch-world (E.patch_status mautrix_signal b current w)))
              (H.status_keeps mautrix_signal b current w may h))
      ]

  pub update_mautrix_signal_status-keeps :
      (b : MautrixSignal) (w : E.World)
      → R.status mautrix_signal (key_of mautrix_signal b)
      → P w
      → P (update_mautrix_signal_status E b w).1
  unfolding update_mautrix_signal_status
  update_mautrix_signal_status-keeps b w may h =
      let read = H.get_keeps mautrix_signal (key_of mautrix_signal b) w h in
      elim (Result-cases (E.get mautrix_signal (key_of mautrix_signal b) w).0) [
        | inl (current, found) ↦
            rw (found, update_mautrix_signal_status)
              (patch_mautrix_signal-keeps b current _ may read)
        | inr (e, failed) ↦ rw (failed, update_mautrix_signal_status) read
      ]

  pub trigger-keeps :
      (req : NamespacedName)
      → ((n : NamespacedName) → R.status synapse n)
      → (w : E.World) → P w
      → P (trigger_from_mautrix_signal E req w).1
  unfolding trigger_from_mautrix_signal fetch_synapse_of
  trigger-keeps req may w = Keeps-run E _ w (
      Keeps-bind (latest_mautrix_signal E req) _ (Keeps-latest_mautrix_signal req) (λ b _.
        Keeps-bind (try E (fetch_synapse_of E b)) _
          (Keeps-try E {Post = Any} (fetch_synapse_of E b) (λ w' h. H.get_keeps synapse _ w' h)
            (λ w' s _. tt))
          (λ s _.
            Keeps-attempt E (update_status_of_synapse E (needing_reconcile s))
              (update_status_of_synapse-keeps E N L H (needing_reconcile s) (may _)))))

  flow_of_status-Yields : (u : Option Error × Bool) → Yields Any (flow_of_status E u)
  unfolding flow_of_status
  flow_of_status-Yields (some e, patched) = tt
  flow_of_status-Yields (none, true) = tt
  flow_of_status-Yields (none, false) = tt

  Keeps-publish_mautrix_signal :
      (b : MautrixSignal)
      → R.status mautrix_signal (key_of mautrix_signal b)
      → Keeps P Any (publish_mautrix_signal E b)
  unfolding publish_mautrix_signal
  Keeps-publish_mautrix_signal b may = record {
    at = λ w h. (
      update_mautrix_signal_status-keeps b w may h,
      flow_of_status-Yields (update_mautrix_signal_status E b w).0,
    );
  }

  pub build_status-keeps :
      (req : NamespacedName)
      → R.status mautrix_signal req
      → (w : E.World) → P w
      → P (build_mautrix_signal_status E req w).1
  unfolding build_mautrix_signal_status fetch_synapse_of with_synapse_values
  build_status-keeps req allowed w = Keeps-run E _ w (
      Keeps-bind (latest_mautrix_signal E req) _ (Keeps-latest_mautrix_signal req) (λ b asked.
        Keeps-bind (try E (fetch_synapse_of E b)) _
          (Keeps-try E {Post = Any} (fetch_synapse_of E b) (λ w' h. H.get_keeps synapse _ w' h)
            (λ w' s _. tt))
          (λ s _.
            Keeps-bind (or_requeue E (get_synapse_server_name s)) _
              (Keeps-or_requeue E {Post = Any} (get_synapse_server_name s) (λ n _. tt))
              (λ server_name _.
                Keeps-publish_mautrix_signal (with_synapse_values b server_name s.spec.is_openshift)
                  (subst (R.status mautrix_signal) (sym asked) allowed)))))
