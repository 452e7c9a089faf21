-- ===== src/Synapse/Config/Parse.antt =====
-- When a user's homeserver.yaml is accepted, and what it puts into the status.
use synapse_operator.Base.{String, ◌≡◌, ◌↔◌, sym, ap, ◌∙◌, Bool, Option, some, arith}
use synapse_operator.Go.{ok, bind_ok, ok_bind, ok_inj, Value, text, bool, Fields, get_field}
use synapse_operator.Kube.{ConfigMap}
use synapse_operator.Api.{Synapse, SynapseHomeserverValues}
use synapse_operator.Env.{Env}
use synapse_operator.Helpers.Config.{load_yaml_file}
use synapse_operator.Synapse.Config.{
  text_of_key, bool_of_key, homeserver_values_of, parse_homeserver_config_map,
}

text_of_key_iff : (v : Option Value) (t : String) → (text_of_key v ≡ ok t) ↔ (v ≡ some (text t))
unfolding text_of_key
text_of_key_iff v t = ground arith

bool_of_key_iff : (v : Option Value) (b : Bool) → (bool_of_key v ≡ ok b) ↔ (v ≡ some (bool b))
unfolding bool_of_key
bool_of_key_iff v b = ground arith

-- The Synapse with these values in its status.
abbrev pub configured : Synapse → String → Bool → Synapse
configured s server_name report_stats = record s {
  status = record (s.status) {
    homeserver_configuration = record { server_name = server_name; report_stats = report_stats };
  };
}

module _ (E : Env) (s : Synapse) (cm : ConfigMap) where
  abbrev pub Accepted : Synapse → Type 0
  Accepted s' =
      (homeserver : Fields) × (server_name : String) × (report_stats : Bool) × (load_yaml_file E cm
          "homeserver.yaml"
        ≡ ok homeserver)
      × (get_field "server_name" homeserver ≡ some (text server_name))
      × (get_field "report_stats" homeserver ≡ some (bool report_stats))
      × (s' ≡ configured s server_name report_stats)

  -- The ConfigMap is accepted exactly if homeserver.yaml loads, its server_name is a text and its
  -- report_stats a Boolean; these two go into the status, and nothing else of the Synapse changes.
  pub parse_homeserver_config_map_iff :
      (s' : Synapse) → (parse_homeserver_config_map E s cm ≡ ok s') ↔ Accepted s'
  unfolding parse_homeserver_config_map homeserver_values_of
  parse_homeserver_config_map_iff s' = (
    (λ h.
        let (homeserver, load, h₁) = bind_ok (load_yaml_file E cm "homeserver.yaml") _ h in
        let (v, values, h₂) = bind_ok (homeserver_values_of homeserver) _ h₁ in
        let (server_name, name, h₃) =
          bind_ok (text_of_key (get_field "server_name" homeserver)) _ values in
        let (report_stats, stats, h₄) =
          bind_ok (bool_of_key (get_field "report_stats" homeserver)) _ h₃ in
        (
          homeserver,
          server_name,
          report_stats,
          load,
          (text_of_key_iff _ server_name).0 name,
          (bool_of_key_iff _ report_stats).0 stats,
          sym (ok_inj _ s' h₂)
              ∙ ap (λ (v' : SynapseHomeserverValues). configured s v'.server_name v'.report_stats)
                  (sym (ok_inj _ v h₄)),
        )),
    (λ (homeserver, server_name, report_stats, load, name, stats, same). rw same (
        ok_bind _ load
        ∙ ok_bind _ (
            ok_bind _ ((text_of_key_iff _ server_name).1 name)
            ∙ ok_bind _ ((bool_of_key_iff _ report_stats).1 stats)))),
  )
