-- ===== src/Synapse/Config/AppServices.antt =====
-- The list of application services in homeserver.yaml after its edits.
use synapse_operator.Base.{String, ◌≡◌, ◌≢◌, refl, sym, ap, ◌∙◌, Option, none, some, List, [], ◌∷◌}
use synapse_operator.Go.{ok, ok_inj, Value, string_slice, dict, Fields, get_field, set_field}
use synapse_operator.Kube.{ConfigMap}
use synapse_operator.Env.{Env, DecodesSlices}
use synapse_operator.Helpers.Config.{load_yaml_file, update_config_map_data}
use synapse_operator.Helpers.Config.Edits.{load_yaml_file_found, update_config_map_data_iff}
use synapse_operator.Synapse.Config.{
  add_app_service_to_homeserver, heisenbridge_file, mautrix_signal_file,
  update_homeserver_with_heisenbridge_infos, update_homeserver_with_mautrix_signal_infos,
}

abbrev app_services : String
app_services = "app_service_config_files"

add_by_case :
    (path : String) (homeserver : Fields) (found : Option Value)
    → get_field app_services homeserver ≡ found
    → ((xs : List String) → found ≢ some (string_slice xs))
    → add_app_service_to_homeserver path homeserver
      ≡ set_field app_services (string_slice (path ∷ [])) homeserver
unfolding add_app_service_to_homeserver
add_by_case path homeserver none e h = rw (e, add_app_service_to_homeserver)
add_by_case path homeserver (some (string_slice xs)) e h = absurd (h xs refl)
add_by_case path homeserver (some v) e h = rw (e, add_app_service_to_homeserver)

-- What an edit of a ConfigMap has written: the content that it read, with one application service
-- alone in the list.
abbrev pub RegistersOnly : Env → String → ConfigMap → ConfigMap → Type 0
RegistersOnly E path cm cm' =
    (homeserver : Fields) × (printed : String) × (load_yaml_file E cm "homeserver.yaml"
      ≡ ok homeserver)
    × (E.marshal (dict (set_field app_services (string_slice (path ∷ [])) homeserver)) ≡ ok printed)
    × (cm'.files ≡ ("homeserver.yaml", printed) ∷ [])

module _ (E : Env) (D : DecodesSlices E.yaml) where
  add_app_service-RegistersOnly :
      (path : String) (cm cm' : ConfigMap)
      → update_config_map_data E cm
          (λ m. ok (add_app_service_to_homeserver path m))
          "homeserver.yaml"
        ≡ ok cm'
      → RegistersOnly E path cm cm'
  add_app_service-RegistersOnly path cm cm' h =
      let (content, loaded, updated, printed, file, document, update, print, same) =
        (update_config_map_data_iff E cm _ "homeserver.yaml" cm').0 h in
      let added : updated ≡ set_field app_services (string_slice (path ∷ [])) loaded =
        sym (ok_inj _ updated update)
        ∙ add_by_case path loaded (get_field app_services loaded) refl
            (λ xs. D.decoded content loaded app_services xs document) in
      (
        loaded,
        printed,
        load_yaml_file_found E cm "homeserver.yaml" content loaded file document,
        rw added at print,
        ap (λ (c : ConfigMap). c.files) same,
      )

  -- Where YAML lists are never decoded to []string: of the two edits that register the bridges, each
  -- leaves its own file as the only application service of the document that it read, so that the
  -- second leaves the mautrix-signal file as the only application service, whatever the user's
  -- homeserver.yaml and the first edit had put there.
  pub mautrix_signal-RegistersOnly :
      (cm with_heisenbridge with_both : ConfigMap)
      → update_config_map_data E cm update_homeserver_with_heisenbridge_infos "homeserver.yaml"
        ≡ ok with_heisenbridge
      → update_config_map_data E with_heisenbridge update_homeserver_with_mautrix_signal_infos
          "homeserver.yaml"
        ≡ ok with_both
      → RegistersOnly E heisenbridge_file cm with_heisenbridge
        × RegistersOnly E mautrix_signal_file with_heisenbridge with_both
  unfolding update_homeserver_with_heisenbridge_infos update_homeserver_with_mautrix_signal_infos
  mautrix_signal-RegistersOnly cm with_heisenbridge with_both first second = (
    add_app_service-RegistersOnly heisenbridge_file cm with_heisenbridge first,
    add_app_service-RegistersOnly mautrix_signal_file with_heisenbridge with_both second,
  )
