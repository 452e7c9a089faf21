-- ===== src/Synapse/Status/Converge.antt =====
-- A subreconciler that writes the status stops asking for another run: once its patch is stored,
-- its next run in a quiet cluster goes on and changes nothing.
use synapse_operator.Base.{◌≡◌, false, refl, sym, ◌∙◌, none, some, subst}
use synapse_operator.Go.{ok}
use synapse_operator.Kube.{NamespacedName}
use synapse_operator.Api.{Synapse, SynapseStatus, SynapseHomeserverValues}
use synapse_operator.Env.{synapse, key_of, Env, IsSubreconciler, IsQuiet}
use synapse_operator.Exec.{Ending, returned, ◌>>=◌, run, settle, deref}
use synapse_operator.Synapse.Access.{update_synapse_status, publish_status, flow_of_update}
use synapse_operator.Synapse.Access.Publish.{
  latest_synapse-found, update_synapse_status-Updated, update_synapse_status_same,
}
use synapse_operator.Synapse.Status.{
  as_running, set_synapse_status_as_running, with_homeserver_values,
  set_status_homeserver_configuration,
}

module _ (E : Env) where
  -- What a run of a status subreconciler comes to, once it has the Synapse to publish.
  unfoldable pub after_update : Synapse → E.World → Ending × E.World
  after_update c w =
      let (u, w') = update_synapse_status E c w in (settle E (flow_of_update E u), w')

module _ (E : Env) (Q : IsQuiet E.client) (L : IsSubreconciler E.sub) (req : NamespacedName) where
  module _ (s : Synapse) (w : E.World) (found : (E.get synapse req w).0 ≡ ok s) where
    pub running-after_update :
        set_synapse_status_as_running E req w ≡ after_update E (as_running s) w
    unfolding set_synapse_status_as_running run ◌>>=◌ publish_status after_update
    running-after_update = rw (latest_synapse-found E Q L req s w found)

    homeserver-after_update :
        (v : SynapseHomeserverValues)
        → s.spec.homeserver.values ≡ some v
        → set_status_homeserver_configuration E req w
          ≡ after_update E (with_homeserver_values s v) w
    unfolding set_status_homeserver_configuration run ◌>>=◌ publish_status after_update deref
    homeserver-after_update v given = rw (latest_synapse-found E Q L req s w found) (rw given)

    after_update_stored :
        (st : SynapseStatus)
        → (update_synapse_status E (record s { status = st }) w).0.0 ≡ none
        → (E.get synapse req (after_update E (record s { status = st }) w).1).0
          ≡ ok (record s { status = st })
    unfolding after_update
    after_update_stored st written =
        let c : Synapse = record s { status = st } in
        let key : key_of synapse s ≡ req = Q.key-get synapse req s w found in
        subst (λ n. (E.get synapse n (update_synapse_status E c w).1).0 ≡ ok c) key
          (update_synapse_status-Updated E Q c s w
            (subst (λ n. (E.get synapse n w).0 ≡ ok s) (sym key) found) written).0

    after_update_same : after_update E s w ≡ (returned E.continue_reconciling, w)
    unfolding after_update
    after_update_same = rw (
        update_synapse_status_same E Q s s w
          (subst (λ n. (E.get synapse n w).0 ≡ ok s) (sym (Q.key-get synapse req s w found)) found)
          refl)

  -- In a quiet cluster, if the write of the status succeeds, the last subreconciler leaves the
  -- Synapse RUNNING, with no reason and no mark that it needs to be reconciled and nothing else
  -- changed; and its next run goes on and leaves the cluster as it is.
  pub running_converges :
      (s : Synapse) (w : E.World)
      → (E.get synapse req w).0 ≡ ok s
      → (update_synapse_status E (as_running s) w).0.0 ≡ none
      → let w' = (set_synapse_status_as_running E req w).1 in
        ((E.get synapse req w').0
          ≡ ok (record s {
            status = record (s.status) { needs_reconcile = false; state = "RUNNING"; reason = "" };
          }))
        × (set_synapse_status_as_running E req w' ≡ (returned E.continue_reconciling, w'))
  unfolding as_running
  running_converges s w found written =
      let stored = after_update_stored s w found (as_running s).status written in
      let w₁ = (after_update E (as_running s) w).1 in
      rw (running-after_update s w found) (
        stored,
        running-after_update (as_running s) w₁ stored ∙ after_update_same (as_running s) w₁ stored,
      )

  -- In a quiet cluster, for a Synapse with values, if the write of the status succeeds, the first
  -- subreconciler leaves the status with these values and nothing else changed; and its next run goes
  -- on and leaves the cluster as it is.
  pub homeserver_status_converges :
      (s : Synapse) (w : E.World) (v : SynapseHomeserverValues)
      → (E.get synapse req w).0 ≡ ok s
      → s.spec.homeserver.values ≡ some v
      → (update_synapse_status E (with_homeserver_values s v) w).0.0 ≡ none
      → let w' = (set_status_homeserver_configuration E req w).1 in
        ((E.get synapse req w').0
          ≡ ok (record s {
            status = record (s.status) {
              homeserver_configuration = record {
                server_name = v.server_name;
                report_stats = v.report_stats;
              };
            };
          }))
        × (set_status_homeserver_configuration E req w' ≡ (returned E.continue_reconciling, w'))
  unfolding with_homeserver_values
  homeserver_status_converges s w v found given written =
      let c = with_homeserver_values s v in
      let stored = after_update_stored s w found c.status written in
      let w₁ = (after_update E c w).1 in
      rw (homeserver-after_update s w found v given)
        (stored, homeserver-after_update c w₁ stored v given ∙ after_update_same c w₁ stored)
