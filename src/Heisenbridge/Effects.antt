-- ===== src/Heisenbridge/Effects.antt =====
-- What the subreconcilers of a Heisenbridge leave: the Synapse that is told, and the ConfigMap that
-- is edited.
use synapse_operator.Base.{
  String, ◌≡◌, true, ◌≢◌, refl, sym, ap, subst, ◌∙◌, none, some, [], ◌∷◌, ◌==◌, eq_iff, Bool-cases,
  inl, inr,
}
use synapse_operator.Go.{ok, ok_inj, text, Fields, get_field, set_field, get_field-set_field, dict}
use synapse_operator.Kube.{NamespacedName, ConfigMap}
use synapse_operator.Api.{Synapse, Heisenbridge}
use synapse_operator.Env.{synapse, heisenbridge, Env, IsSubreconciler, IsQuiet}
use synapse_operator.Exec.{returned, ◌>>=◌, run, next, settle, flow_of_error, try, attempt}
use synapse_operator.Helpers.Config.{load_yaml_file, update_config_map_data}
use synapse_operator.Helpers.Config.Edits.{update_config_map_data_iff, load_yaml_file_found}
use synapse_operator.Synapse.Access.{update_synapse_status, update_status_of_synapse}
use synapse_operator.Synapse.Access.Publish.{update_synapse_status-Updated}
use synapse_operator.Heisenbridge.Access.{
  key_for_synapse, needing_reconcile, get_latest_heisenbridge, latest_heisenbridge,
  fetch_synapse_instance, trigger_synapse_reconciliation,
}
use synapse_operator.Heisenbridge.Resources.{heisenbridge_url, update_heisenbridge_with_url}

module _ (E : Env) (Q : IsQuiet E.client) (L : IsSubreconciler E.sub) where
  latest_heisenbridge-found :
      (req : NamespacedName) (h : Heisenbridge) (w : E.World)
      → (E.get heisenbridge req w).0 ≡ ok h
      → latest_heisenbridge E req w ≡ (next h, w)
  unfolding latest_heisenbridge
  latest_heisenbridge-found req h w found = rw (
    found, latest_heisenbridge, get_latest_heisenbridge, L.halt-continue_reconciling, Q.get_world,
  )

  module _ (req : NamespacedName) (h : Heisenbridge) (s : Synapse) (w : E.World) where
    trigger-update :
        (E.get heisenbridge req w).0 ≡ ok h
        → (E.get synapse (key_for_synapse h) w).0 ≡ ok s
        → let u = update_status_of_synapse E (needing_reconcile s) w in
          trigger_synapse_reconciliation E req w ≡ (settle E (flow_of_error E u.0), u.1)
    unfolding trigger_synapse_reconciliation run ◌>>=◌ try attempt fetch_synapse_instance
    trigger-update found named =
        rw (latest_heisenbridge-found req h w found) (rw (named, Q.get_world))

    -- When, in a quiet cluster, a Heisenbridge and the Synapse that it names are there and the write
    -- of the status succeeds, the trigger goes on, and the stored Synapse is the one that was there but for its
    -- mark that it needs to be reconciled.
    pub trigger_synapse_reconciliation-marks :
        (E.get heisenbridge req w).0 ≡ ok h
        → (E.get synapse (key_for_synapse h) w).0 ≡ ok s
        → (update_synapse_status E (needing_reconcile s) w).0.0 ≡ none
        → let r = trigger_synapse_reconciliation E req w in
          (r.0 ≡ returned E.continue_reconciling)
          × ((E.get synapse (key_for_synapse h) r.1).0
              ≡ ok (record s { status = record (s.status) { needs_reconcile = true } }))
    unfolding update_status_of_synapse needing_reconcile
    trigger_synapse_reconciliation-marks found named written =
        let key = Q.key-get synapse (key_for_synapse h) s w named in
        let stored =
          subst
            (λ n.
              (E.get synapse n (update_synapse_status E (needing_reconcile s) w).1).0
              ≡ ok (needing_reconcile s))
            key
            (update_synapse_status-Updated E Q (needing_reconcile s) s w
              (subst (λ n. (E.get synapse n w).0 ≡ ok s) (sym key) named) written).0 in
        rw (trigger-update found named) (rw written refl, stored)

module _ (E : Env) (h : Heisenbridge) where
  -- What an edit of heisenbridge.yaml has written: the document that it read, with the URL of the
  -- Service of the Heisenbridge, and all other keys as they were.
  abbrev pub PointsToService : ConfigMap → ConfigMap → Type 0
  PointsToService cm cm' =
      (loaded : Fields) × (updated : Fields) × (printed : String) × (load_yaml_file E cm
          "heisenbridge.yaml"
        ≡ ok loaded)
      × (get_field "url" updated ≡ some (text (heisenbridge_url h)))
      × ((key : String) → key ≢ "url" → get_field key updated ≡ get_field key loaded)
      × (E.marshal (dict updated) ≡ ok printed)
      × (cm'.files ≡ ("heisenbridge.yaml", printed) ∷ [])

  set_field-other :
      (key : String) (loaded : Fields)
      → key ≢ "url"
      → get_field key (set_field "url" (text (heisenbridge_url h)) loaded) ≡ get_field key loaded
  set_field-other key loaded differs =
      get_field-set_field "url" key (text (heisenbridge_url h)) loaded
      ∙ elim (Bool-cases ("url" == key)) [
        | inl same ↦ absurd (differs (sym ((eq_iff "url" key).0 same)))
        | inr other ↦ rw other
      ]

  -- An edit of a ConfigMap for a Heisenbridge that succeeds leaves the user's heisenbridge.yaml with
  -- the URL of the Service of that Heisenbridge, and every other key of it as it was.
  pub update_heisenbridge_with_url-PointsToService :
      (cm cm' : ConfigMap)
      → update_config_map_data E cm (update_heisenbridge_with_url h) "heisenbridge.yaml" ≡ ok cm'
      → PointsToService cm cm'
  unfolding update_heisenbridge_with_url
  update_heisenbridge_with_url-PointsToService cm cm' edited =
      let (content, loaded, updated, printed, file, document, update, print, same) =
        (update_config_map_data_iff E cm _ "heisenbridge.yaml" cm').0 edited in
      let added = ok_inj _ updated update in
      (
        loaded,
        updated,
        printed,
        load_yaml_file_found E cm "heisenbridge.yaml" content loaded file document,
        ap (get_field "url") (sym added)
            ∙ get_field-set_field "url" "url" (text (heisenbridge_url h)) loaded,
        (λ key differs. ap (get_field key) (sym added) ∙ set_field-other key loaded differs),
        print,
        ap (λ (c : ConfigMap). c.files) same,
      )
