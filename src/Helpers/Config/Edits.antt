-- ===== src/Helpers/Config/Edits.antt =====
-- What an edit of a YAML file in a ConfigMap does to the ConfigMap.
use synapse_operator.Base.{String, ◌≡◌, ◌↔◌, ◌∙◌, sym, some, [], ◌∷◌, arith}
use synapse_operator.Go.{ok, ok_inj, bind_ok, ok_bind, lookup, dict, Fields}
use synapse_operator.Kube.{ConfigMap}
use synapse_operator.Env.{Env}
use synapse_operator.Helpers.Config.{
  UpdateData, load_file_from_config_map, load_yaml_file, write_yaml_file, update_config_map_data,
}

load_file_ok :
    (cm : ConfigMap) (filename content : String)
    → load_file_from_config_map cm filename ≡ ok content
    → lookup filename cm.files ≡ some content
unfolding load_file_from_config_map
load_file_ok cm filename content h = ground arith

load_file_found :
    (cm : ConfigMap) (filename content : String)
    → lookup filename cm.files ≡ some content
    → load_file_from_config_map cm filename ≡ ok content
unfolding load_file_from_config_map
load_file_found cm filename content h = rw (h, load_file_from_config_map)

pub load_yaml_file_found :
    (E : Env) (cm : ConfigMap) (filename content : String) (loaded : Fields)
    → lookup filename cm.files ≡ some content
    → E.unmarshal content ≡ ok loaded
    → load_yaml_file E cm filename ≡ ok loaded
unfolding load_yaml_file
load_yaml_file_found E cm filename content loaded file document =
    ok_bind _ (load_file_found cm filename content file) ∙ document

module _ (E : Env) (cm : ConfigMap) (update_data : UpdateData) (filename : String) where
  -- The file is there and is a YAML document; the update of its content and its printing succeed;
  -- and the result is the ConfigMap with the printed content as its only file.
  abbrev pub Edited : ConfigMap → Type 0
  Edited cm' =
      (content : String) × (loaded : Fields) × (updated : Fields) × (printed : String) × (lookup
          filename cm.files
        ≡ some content)
      × (E.unmarshal content ≡ ok loaded)
      × (update_data loaded ≡ ok updated)
      × (E.marshal (dict updated) ≡ ok printed)
      × (cm' ≡ record cm { files = (filename, printed) ∷ [] })

  -- An edit succeeds with a ConfigMap exactly if that is the original one with the edited file as
  -- its only file: the other files of the ConfigMap are lost.
  pub update_config_map_data_iff :
      (cm' : ConfigMap) → (update_config_map_data E cm update_data filename ≡ ok cm') ↔ Edited cm'
  unfolding update_config_map_data load_yaml_file write_yaml_file
  update_config_map_data_iff cm' = (
    (λ h.
        let (loaded, load, h₁) = bind_ok (load_yaml_file E cm filename) _ h in
        let (content, file, document) = bind_ok (load_file_from_config_map cm filename) _ load in
        let (updated, update, h₂) = bind_ok (update_data loaded) _ h₁ in
        let (printed, print, h₃) = bind_ok (E.marshal (dict updated)) _ h₂ in
        (
          content,
          loaded,
          updated,
          printed,
          load_file_ok cm filename content file,
          document,
          update,
          print,
          sym (ok_inj _ cm' h₃),
        )),
    (λ (content, loaded, updated, printed, file, document, update, print, same). rw same (
        ok_bind _ (ok_bind _ (load_file_found cm filename content file) ∙ document)
        ∙ (ok_bind _ update ∙ ok_bind _ print))),
  )
