-- ===== src/MautrixSignal/Effects.antt =====
-- What the controller of the mautrix-signal bridge does when the user's ConfigMap cannot be read.
use synapse_operator.Base.{◌≡◌, refl, ap, ◌∙◌, sym, subst, none, false}
use synapse_operator.Go.{Error, ok, err}
use synapse_operator.Kube.{NamespacedName}
use synapse_operator.Api.{MautrixSignal, mautrix_signal_status_eq_iff}
use synapse_operator.Env.{mautrix_signal, config_map, key_of, Env, IsSubreconciler, IsQuiet}
use synapse_operator.Exec.{returned, ◌>>=◌, run, halt, next}
use synapse_operator.MautrixSignal.Access.{
  get_latest_mautrix_signal, latest_mautrix_signal, patch_mautrix_signal,
  update_mautrix_signal_status,
}
use synapse_operator.MautrixSignal.Controller.{
  input_of_mautrix_signal, failed_input, check_mautrix_signal_input,
  copy_input_mautrix_signal_config_map,
}

module _ (E : Env) (Q : IsQuiet E.client) (L : IsSubreconciler E.sub) where
  latest_mautrix_signal-found :
      (req : NamespacedName) (ms : MautrixSignal) (w : E.World)
      → (E.get mautrix_signal req w).0 ≡ ok ms
      → latest_mautrix_signal E req w ≡ (next ms, w)
  unfolding latest_mautrix_signal
  latest_mautrix_signal-found req ms w found = rw (
    found, latest_mautrix_signal, get_latest_mautrix_signal, L.halt-continue_reconciling,
    Q.get_world,
  )

  check_mautrix_signal_input-absent :
      (ms : MautrixSignal) (w : E.World) (e : Error)
      → (E.get config_map (input_of_mautrix_signal ms) w).0 ≡ err e
      → let u = update_mautrix_signal_status E (failed_input ms) w in
        check_mautrix_signal_input E ms w ≡ (halt (E.requeue_with_delay_and_error 30 u.0.0), u.1)
  unfolding check_mautrix_signal_input
  check_mautrix_signal_input-absent ms w e absent =
      rw (absent, Q.get_world, check_mautrix_signal_input)

  -- A status that is written again as it is stored is not patched.
  update_mautrix_signal_status-same :
      (req : NamespacedName) (ms : MautrixSignal) (w : E.World)
      → (E.get mautrix_signal req w).0 ≡ ok ms
      → (failed_input ms).status ≡ ms.status
      → update_mautrix_signal_status E (failed_input ms) w ≡ ((none, false), w)
  unfolding update_mautrix_signal_status patch_mautrix_signal failed_input
  update_mautrix_signal_status-same req ms w found settled =
      let there : (E.get mautrix_signal (key_of mautrix_signal ms) w).0 ≡ ok ms =
        subst (λ n. (E.get mautrix_signal n w).0 ≡ ok ms)
          (sym (Q.key-get mautrix_signal req ms w found)) found in
      let equal = (mautrix_signal_status_eq_iff (failed_input ms).status ms.status).1 settled in
      rw (there, Q.get_world, update_mautrix_signal_status) (rw (equal, patch_mautrix_signal) refl)

  -- In a quiet cluster, once the stored MautrixSignal says that the user's ConfigMap cannot be read,
  -- every further copy, as long as the ConfigMap cannot be read and whatever the error of that read,
  -- ends with a delayed requeue that carries no error, and writes nothing.
  pub copy_input_mautrix_signal_config_map-stays_failed :
      (req : NamespacedName) (ms : MautrixSignal) (w : E.World) (e : Error)
      → (E.get mautrix_signal req w).0 ≡ ok ms
      → (failed_input ms).status ≡ ms.status
      → (E.get config_map (input_of_mautrix_signal ms) w).0 ≡ err e
      → copy_input_mautrix_signal_config_map E req w
        ≡ (returned (E.requeue_with_delay_and_error 30 none), w)
  unfolding copy_input_mautrix_signal_config_map run ◌>>=◌
  copy_input_mautrix_signal_config_map-stays_failed req ms w e found settled absent =
      let same = update_mautrix_signal_status-same req ms w found settled in
      let ended : check_mautrix_signal_input E ms w
          ≡ (halt (E.requeue_with_delay_and_error 30 none), w) =
        check_mautrix_signal_input-absent ms w e absent
        ∙ ap (λ u. (halt (E.requeue_with_delay_and_error 30 u.0.0), u.1)) same in
      rw (latest_mautrix_signal-found req ms w found) (rw ended)
