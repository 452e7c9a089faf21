-- ===== src/Helpers/Config.antt =====
-- helpers/utils/configmap_utils.go: read, edit and write one YAML file of a ConfigMap, and copy a
-- ConfigMap.
pub mod Keeps
pub mod Edits
use synapse_operator.Base.{String, ◌<>◌, Option, none, some, [], ◌∷◌}
use synapse_operator.Go.{Error, new, Result, ok, err, ◌>>=◌, lookup, dict, Fields}
use synapse_operator.Kube.{ObjectMeta, NamespacedName, ConfigMap}
use synapse_operator.Env.{config_map, Env}

load_file_from_config_map : ConfigMap → String → Result String
load_file_from_config_map cm filename = elim (lookup filename cm.files) [
  | none ↦ err (new ("missing " <> (filename <> (" in ConfigMap " <> cm.meta.name))))
  | some content ↦ ok content
]

unfoldable pub write_file_to_config_map : ConfigMap → String → String → ConfigMap
write_file_to_config_map cm filename content = record cm { files = (filename, content) ∷ [] }

-- `updateDataFunc`, for an object that the caller has already given. The map that it mutates
-- comes back as the result.
abbrev pub UpdateData : Type 0
UpdateData = Fields → Result Fields

abbrev option_error : {A : Type 0} → Result A → Option Error
option_error (ok a) = none
option_error (err e) = some e

module _ (E : Env) where
  unfoldable pub load_yaml_file : ConfigMap → String → Result Fields
  unfolding load_file_from_config_map
  load_yaml_file cm filename = do
    content ← load_file_from_config_map cm filename
    E.unmarshal content

  write_yaml_file : ConfigMap → String → Fields → Result ConfigMap
  unfolding write_file_to_config_map
  write_yaml_file cm filename yaml_content = do
    content ← E.marshal (dict yaml_content)
    ok (write_file_to_config_map cm filename content)

  unfoldable pub update_config_map_data : ConfigMap → UpdateData → String → Result ConfigMap
  unfolding load_yaml_file write_yaml_file
  update_config_map_data cm update_data filename = do
    loaded ← load_yaml_file cm filename
    updated ← update_data loaded
    write_yaml_file cm filename updated

  -- The rest of `UpdateConfigMap` after its read.
  store_update : Result ConfigMap → E.World → Option Error × E.World
  store_update (err e) w = (some e, w)
  store_update (ok cm) w = E.update config_map cm w

  unfoldable pub update_config_map :
      NamespacedName → UpdateData → String → E.World → Option Error × E.World
  unfolding update_config_map_data store_update
  update_config_map key update_data filename w =
      let (found, w') = E.get config_map key w in
      store_update (found >>= λ cm. update_config_map_data cm update_data filename) w'

  unfoldable pub get_config_map_copy :
      NamespacedName → ObjectMeta → E.World → Result ConfigMap × E.World
  get_config_map_copy source copy_meta w =
      let (found, w') = E.get config_map source w in
      (found >>= λ cm. ok (record { meta = copy_meta; files = cm.files }), w')
