-- ===== src/Manager/Roles.antt =====
-- The role of the operator: the `kubebuilder:rbac` markers of the three controllers
-- (synapse_controller.go, heisenbridge_controller.go, mautrixsignal_controller.go), from which
-- controller-gen writes config/rbac/role.yaml.
pub mod Authorized
use synapse_operator.Base.{String, Bool, true, false, List, [], ◌∷◌, ◌++◌, ◌&&◌, ◌||◌, ◌==◌}
use synapse_operator.Env.{
  Kind, synapse, heisenbridge, mautrix_signal, config_map, secret, service, deployment, claim,
  service_account, role_binding, postgres_cluster,
}

pub record Rule : Type 0 where
  pub group : String
  pub resources : List String
  pub verbs : List String

abbrev every_verb : List String
every_verb = "get" ∷ "list" ∷ "watch" ∷ "create" ∷ "update" ∷ "patch" ∷ "delete" ∷ []

abbrev status_verbs : List String
status_verbs = "get" ∷ "update" ∷ "patch" ∷ []

-- The three markers of a kind of this operator.
rules_of_resource : String → String → String → List Rule
rules_of_resource resource status finalizers =
    (record { group = "synapse.opdev.io"; resources = resource ∷ []; verbs = every_verb })
    ∷ (record { group = "synapse.opdev.io"; resources = status ∷ []; verbs = status_verbs })
    ∷ (record { group = "synapse.opdev.io"; resources = finalizers ∷ []; verbs = "update" ∷ [] })
    ∷ []

unfoldable pub synapse_rules : List Rule
unfolding rules_of_resource
synapse_rules =
    rules_of_resource "synapses" "synapses/status" "synapses/finalizers"
    ++ (record {
      group = "core";
      resources = "services" ∷ "persistentvolumeclaims" ∷ "configmaps" ∷ "serviceaccounts" ∷ [];
      verbs = every_verb;
    })
      ∷ (record { group = "apps"; resources = "deployments" ∷ []; verbs = every_verb })
      ∷ (record {
        group = "rbac.authorization.k8s.io";
        resources = "rolebindings" ∷ [];
        verbs = every_verb;
      })
      ∷ (record {
        group = "postgres-operator.crunchydata.com";
        resources = "postgresclusters" ∷ [];
        verbs = every_verb;
      })
      ∷ []

unfoldable pub mautrix_signal_rules : List Rule
unfolding rules_of_resource
mautrix_signal_rules =
    rules_of_resource "mautrixsignals" "mautrixsignals/status" "mautrixsignals/finalizers"

unfoldable pub heisenbridge_rules : List Rule
unfolding rules_of_resource
heisenbridge_rules =
    rules_of_resource "heisenbridges" "heisenbridges/status" "heisenbridges/finalizers"

-- controller-gen puts the markers of all files into one role.
unfoldable pub role : List Rule
role = synapse_rules ++ (mautrix_signal_rules ++ heisenbridge_rules)

-- The API group and the resource of a kind, as in the markers.
unfoldable pub group_of : Kind → String
group_of synapse = "synapse.opdev.io"
group_of heisenbridge = "synapse.opdev.io"
group_of mautrix_signal = "synapse.opdev.io"
group_of deployment = "apps"
group_of role_binding = "rbac.authorization.k8s.io"
group_of postgres_cluster = "postgres-operator.crunchydata.com"
group_of k = "core"

unfoldable pub resource_of : Kind → String
resource_of synapse = "synapses"
resource_of heisenbridge = "heisenbridges"
resource_of mautrix_signal = "mautrixsignals"
resource_of config_map = "configmaps"
resource_of secret = "secrets"
resource_of service = "services"
resource_of deployment = "deployments"
resource_of claim = "persistentvolumeclaims"
resource_of service_account = "serviceaccounts"
resource_of role_binding = "rolebindings"
resource_of postgres_cluster = "postgresclusters"

unfoldable pub status_resource_of : Kind → String
status_resource_of synapse = "synapses/status"
status_resource_of heisenbridge = "heisenbridges/status"
status_resource_of mautrix_signal = "mautrixsignals/status"
status_resource_of k = ""

unfoldable pub has_text : String → List String → Bool
has_text s [] = false
has_text s (t ∷ ts) = s == t || has_text s ts

-- A rule lists this verb for this resource of this group.
unfoldable pub grants : List Rule → String → String → String → Bool
unfolding has_text
grants [] verb group resource = false
grants (r ∷ rules) verb group resource =
    (r.group == group && has_text resource r.resources && has_text verb r.verbs)
    || grants rules verb group resource
