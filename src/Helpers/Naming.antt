-- ===== src/Helpers/Naming.antt =====
-- Names and metadata: `SetObjectMeta` of helpers/reconcile/reconcile.go, `ComputeFQDN` of
-- helpers/utils/bridge_utils.go, `ComputeNamespace` of helpers/utils/configmap_utils.go, and the
-- conversions of helpers/utils/utils.go.
use synapse_operator.Base.{String, ◌<>◌, Bool, List, [], ◌∷◌, ◌==◌, if◌then◌else◌}
use synapse_operator.Kube.{ObjectMeta, Labels}

unfoldable pub set_object_meta : String → String → Labels → ObjectMeta
set_object_meta name namespace labels = record {
  name = name;
  namespace = namespace;
  labels = labels;
  owner_references = [];
}

-- `strings.Join(parts, sep)`
unfoldable pub join : List String → String → String
join [] sep = ""
join (p ∷ []) sep = p
join (p ∷ (q ∷ parts)) sep = p <> (sep <> join (q ∷ parts) sep)

unfoldable pub compute_fqdn : String → String → String
unfolding join
compute_fqdn name namespace = join (name ∷ namespace ∷ "svc" ∷ "cluster" ∷ "local" ∷ []) "."

unfoldable pub compute_namespace : String → String → String
compute_namespace default_namespace new_namespace =
    if new_namespace == "" then default_namespace else new_namespace

unfoldable pub bool_to_yes_no : Bool → String
bool_to_yes_no report_stats = if report_stats then "yes" else "no"

unfoldable pub bool_to_string : Bool → String
bool_to_string b = if b then "true" else "false"
