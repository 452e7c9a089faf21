-- ===== src/Synapse/Status/Keeps.antt =====
-- What the subreconcilers of the status may write: the status of the Synapse of the request.
use synapse_operator.Base.{◌≡◌, refl, sym, ap, ◌∙◌, subst}
use synapse_operator.Go.{ok, ok_inj, bind_ok}
use synapse_operator.Kube.{NamespacedName, Secret}
use synapse_operator.Api.{Synapse}
use synapse_operator.Env.{
  synapse, secret, heisenbridge, mautrix_signal, key_of, Env, IsKeyed, IsSubreconciler,
}
use synapse_operator.Exec.{deref, or_requeue, try}
use synapse_operator.Exec.Keeps.{
  Rights, Respects, Keeps, Any, Keeps-bind, Keeps-run, Keeps-deref, Keeps-or_requeue, Keeps-try,
}
use synapse_operator.Synapse.Database.{update_synapse_status_database, database_of_secret}
use synapse_operator.Synapse.Access.{latest_synapse}
use synapse_operator.Synapse.Access.Keeps.{Keeps-latest_synapse, Keeps-publish_status}
use synapse_operator.Synapse.Status.{
  with_homeserver_values, with_bridges, as_running, list_bridges, postgres_secret_key,
  set_status_homeserver_configuration, update_synapse_status_bridges,
  update_synapse_status_with_postgresql_infos, set_synapse_status_as_running,
}

-- The database information changes the status alone.
database-key :
    (s s' : Synapse) (sec : Secret)
    → update_synapse_status_database s sec ≡ ok s'
    → key_of synapse s' ≡ key_of synapse s
unfolding update_synapse_status_database
database-key s s' sec updated =
    let (info, read, e) = bind_ok (database_of_secret sec) _ updated in
    ap (key_of synapse) (sym (ok_inj _ s' e))

module _ (E : Env) (N : IsKeyed E.client) (L : IsSubreconciler E.sub) {R : Rights}
    {P : E.World → Type 0} (H : Respects E.client R P) (req : NamespacedName)
    (allowed : R.status synapse req) (w : E.World) where
  may_publish : (s : Synapse) → key_of synapse s ≡ req → R.status synapse (key_of synapse s)
  may_publish s is_asked = subst (R.status synapse) (sym is_asked) allowed

  pub homeserver-keeps : P w → P (set_status_homeserver_configuration E req w).1
  unfolding set_status_homeserver_configuration with_homeserver_values
  homeserver-keeps = Keeps-run E _ w (
      Keeps-bind (latest_synapse E req) _ (Keeps-latest_synapse E N L H req) (λ s is_asked.
        Keeps-bind (deref s.spec.homeserver.values) _
          (Keeps-deref {Post = Any} s.spec.homeserver.values (λ v _. tt))
          (λ v _. Keeps-publish_status E N L H _ (may_publish s is_asked))))

  list_bridges-Keeps :
      (s : Synapse) → Keeps P (λ s'. key_of synapse s' ≡ key_of synapse s) (list_bridges E s)
  unfolding list_bridges with_bridges
  list_bridges-Keeps s = record {
    at = λ w' h. (H.list_keeps mautrix_signal _ (H.list_keeps heisenbridge w' h), refl);
  }

  pub bridges-keeps : P w → P (update_synapse_status_bridges E req w).1
  unfolding update_synapse_status_bridges
  bridges-keeps = Keeps-run E _ w (
      Keeps-bind (latest_synapse E req) _ (Keeps-latest_synapse E N L H req) (λ s is_asked.
        Keeps-bind (list_bridges E s) _ (list_bridges-Keeps s)
          (λ s' same. Keeps-publish_status E N L H s' (may_publish s' (same ∙ is_asked)))))

  pub postgres_infos-keeps : P w → P (update_synapse_status_with_postgresql_infos E req w).1
  unfolding update_synapse_status_with_postgresql_infos
  postgres_infos-keeps = Keeps-run E _ w (
      Keeps-bind (latest_synapse E req) _ (Keeps-latest_synapse E N L H req) (λ s is_asked.
        Keeps-bind (try E (E.get secret (postgres_secret_key E s))) _
          (Keeps-try E {Post = Any} (E.get secret (postgres_secret_key E s))
            (H.get_keeps secret (postgres_secret_key E s)) (λ w' a _. tt))
          (λ found _.
            Keeps-bind (or_requeue E (update_synapse_status_database s found)) _
              (Keeps-or_requeue E {Post = λ s'. key_of synapse s' ≡ req}
                (update_synapse_status_database s found)
                (λ s' updated. database-key s s' found updated ∙ is_asked))
              (λ s' same. Keeps-publish_status E N L H s' (may_publish s' same)))))

  pub running-keeps : P w → P (set_synapse_status_as_running E req w).1
  unfolding set_synapse_status_as_running as_running
  running-keeps = Keeps-run E _ w (
      Keeps-bind (latest_synapse E req) _ (Keeps-latest_synapse E N L H req)
        (λ s is_asked. Keeps-publish_status E N L H _ (may_publish s is_asked)))
