-- ===== src/Heisenbridge/Resources.antt =====
-- The Deployment, Service and ConfigMap of a Heisenbridge: heisenbridge_deployment.go,
-- heisenbridge_service.go and heisenbridge_configmap.go of controllers/synapse/heisenbridge.
use synapse_operator.Base.{ℕ, zero, suc, String, ◌<>◌, List, [], ◌∷◌, ◌++◌}
use synapse_operator.Go.{Result, ok, ◌>>=◌, ℤ, pos, negsuc, text, Fields, set_field}
use synapse_operator.Kube.{
  ObjectMeta, Labels, Service, Deployment, ConfigMap, PodSpec, from_config_map,
}
use synapse_operator.Api.{Heisenbridge}
use synapse_operator.Env.{heisenbridge, Env}
use synapse_operator.Helpers.Naming.{set_object_meta, join, compute_fqdn}
use synapse_operator.Heisenbridge.Access.{key_for_synapse}

unfoldable pub get_heisenbridge_service_fqdn : Heisenbridge → String
unfolding join
get_heisenbridge_service_fqdn h =
    join (h.meta.name ∷ h.meta.namespace ∷ "svc" ∷ "cluster" ∷ "local" ∷ []) "."

unfoldable pub labels_for_heisenbridge : String → Labels
labels_for_heisenbridge name = ("app", "heisenbridge") ∷ ("heisenbridge_cr", name) ∷ []

unfoldable pub meta_for_heisenbridge : Heisenbridge → ObjectMeta
unfolding set_object_meta
meta_for_heisenbridge h = set_object_meta h.meta.name h.meta.namespace []

-- The loop that adds a `v` for each level.
unfoldable pub add_verbosity : ℕ → String → String
add_verbosity zero verbosity = verbosity
add_verbosity (suc n) verbosity = add_verbosity n (verbosity <> "v")

unfoldable pub verbosity_flags : ℤ → List String
unfolding add_verbosity
verbosity_flags (pos zero) = []
verbosity_flags (pos (suc n)) = add_verbosity (suc n) "-" ∷ []
verbosity_flags (negsuc n) = []

unfoldable pub craft_heisenbridge_command : Heisenbridge → List String
unfolding verbosity_flags compute_fqdn key_for_synapse
craft_heisenbridge_command h =
    let key = key_for_synapse h in
    ("python" ∷ "-m" ∷ "heisenbridge" ∷ [])
    ++ (verbosity_flags h.spec.verbose_level
        ++ ("-c"
            ∷ "/data-heisenbridge/heisenbridge.yaml"
            ∷ "-l"
            ∷ "0.0.0.0"
            ∷ ("http://" <> (compute_fqdn key.name key.namespace <> ":8008"))
            ∷ []))

unfoldable pub heisenbridge_pod : Heisenbridge → ObjectMeta → PodSpec
heisenbridge_pod h object_meta = record {
  init_containers = [];
  containers =
      (record {
        image = "hif1/heisenbridge:1.14";
        name = "heisenbridge";
        command = craft_heisenbridge_command h;
        args = [];
        env = [];
        volume_mounts =
            (record { name = "data-heisenbridge"; mount_path = "/data-heisenbridge" }) ∷ [];
        ports = 9898 ∷ [];
      })
      ∷ [];
  volumes = (record { name = "data-heisenbridge"; source = from_config_map object_meta.name }) ∷ [];
  service_account_name = "";
}

unfoldable pub heisenbridge_url : Heisenbridge → String
unfolding get_heisenbridge_service_fqdn
heisenbridge_url h = "http://" <> (get_heisenbridge_service_fqdn h <> ":9898")

unfoldable pub update_heisenbridge_with_url : Heisenbridge → Fields → Result Fields
unfolding heisenbridge_url
update_heisenbridge_with_url h m = ok (set_field "url" (text (heisenbridge_url h)) m)

abbrev registration_tail : String
registration_tail =
    "\nas_token: EUFqSPQusV4mXkPKbwdHyIhthELQ1Xf9S5lSEzTrrlb0uz0ZJRHhwEljT71ByObe\nhs_token: If6r2GGlsNN4MnoW3djToADNdq0JuIJ1WNM4rKHO73WuG5QvVubj1Q4JHrmQBcS6\nrate_limited: false\nsender_localpart: heisenbridge\nnamespaces:\n    users:\n    - regex: '@irc_.*'\n      exclusive: true\n    aliases: []\n    rooms: []\n  "

unfoldable pub heisenbridge_yaml : Heisenbridge → String
unfolding heisenbridge_url
heisenbridge_yaml h = "\nid: heisenbridge\nurl: " <> (heisenbridge_url h <> registration_tail)

module _ (E : Env) where
  unfoldable pub deployment_for_heisenbridge : Heisenbridge → ObjectMeta → Result Deployment
  unfolding labels_for_heisenbridge heisenbridge_pod
  deployment_for_heisenbridge h object_meta = do
    m ← E.set_controller_reference heisenbridge h object_meta
    ok (record {
      meta = m;
      replicas = 1;
      match_labels = labels_for_heisenbridge h.meta.name;
      pod_labels = labels_for_heisenbridge h.meta.name;
      pod = heisenbridge_pod h object_meta;
    })

  unfoldable pub service_for_heisenbridge : Heisenbridge → ObjectMeta → Result Service
  unfolding labels_for_heisenbridge
  service_for_heisenbridge h object_meta = do
    m ← E.set_controller_reference heisenbridge h object_meta
    ok (record {
      meta = m;
      ports =
          (record { name = "heisenbridge"; protocol = "TCP"; port = 9898; target_port = 9898 })
          ∷ [];
      selector = labels_for_heisenbridge h.meta.name;
      service_type = "ClusterIP";
    })

  unfoldable pub config_map_for_heisenbridge : Heisenbridge → ObjectMeta → Result ConfigMap
  unfolding heisenbridge_yaml
  config_map_for_heisenbridge h object_meta = do
    m ← E.set_controller_reference heisenbridge h object_meta
    ok (record { meta = m; files = ("heisenbridge.yaml", heisenbridge_yaml h) ∷ [] })
