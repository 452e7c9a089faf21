-- ===== src/Helpers/Config/Keeps.antt =====
-- An edit of a ConfigMap writes that ConfigMap alone.
use synapse_operator.Base.{◌≡◌, refl, ◌∙◌, sym, ap, subst, String}
use synapse_operator.Go.{Result, ok, err, ◌>>=◌, bind_ok}
use synapse_operator.Kube.{NamespacedName, ConfigMap}
use synapse_operator.Env.{config_map, key_of, Env, IsKeyed}
use synapse_operator.Exec.Keeps.{Rights, Respects}
use synapse_operator.Helpers.Config.{
  UpdateData, update_config_map_data, store_update, update_config_map,
}
use synapse_operator.Helpers.Config.Edits.{update_config_map_data_iff}

-- The edited ConfigMap has the name and namespace of the original one.
pub update_config_map_data-key :
    (E : Env) (cm cm' : ConfigMap) (update_data : UpdateData) (filename : String)
    → update_config_map_data E cm update_data filename ≡ ok cm'
    → key_of config_map cm' ≡ key_of config_map cm
update_config_map_data-key E cm cm' update_data filename h =
    let (content, loaded, updated, printed, file, document, update, print, same) =
      (update_config_map_data_iff E cm update_data filename cm').0 h in
    ap (key_of config_map) same

module _ (E : Env) (N : IsKeyed E.client) {R : Rights} {P : E.World → Type 0}
    (H : Respects E.client R P) (key : NamespacedName) (allowed : R.write config_map key) where
  store_update-keeps :
      (edited : Result ConfigMap) (w : E.World)
      → ((cm : ConfigMap) → edited ≡ ok cm → key_of config_map cm ≡ key)
      → P w
      → P (store_update E edited w).1
  unfolding store_update
  store_update-keeps (err e) w same h = h
  store_update-keeps (ok cm) w same h =
      H.update_keeps config_map cm w (subst (R.write config_map) (sym (same cm refl)) allowed) h

  pub update_config_map-keeps :
      (update_data : UpdateData) (filename : String) (w : E.World)
      → P w
      → P (update_config_map E key update_data filename w).1
  unfolding update_config_map
  update_config_map-keeps update_data filename w h =
      store_update-keeps
        ((E.get config_map key w).0 >>= λ cm. update_config_map_data E cm update_data filename)
        (E.get config_map key w).1
        (λ cm' edited.
          let (cm, found, update) = bind_ok (E.get config_map key w).0 _ edited in
          update_config_map_data-key E cm cm' update_data filename update
          ∙ N.asked_for config_map key cm w found)
        (H.get_keeps config_map key w h)
