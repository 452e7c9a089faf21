-- ===== src/Lib.antt =====
-- The verification of the Synapse operator, a Kubernetes operator that deploys Matrix homeservers.
--
-- A custom resource Synapse asks for a homeserver. Its controller (controllers/synapse/synapse) runs
-- a list of subreconcilers: they write the status of the Synapse, keep the ConfigMap that holds
-- homeserver.yaml, wait for a PostgresCluster if one is asked for, and bring the child resources to
-- their desired state through helpers/reconcile. The bridges' controllers share these helpers.
--
-- The files and the code that they model:
--   Base, Text: shared names, and texts as bytes, base64, and numbers in a text (base64encode and
--     base64decode of controllers/synapse/synapse/synapse_postgrescluster.go, strconv.ParseInt);
--   Go: errors, results, maps and decoded YAML values;
--   Kube: the Kubernetes objects, with the fields that the operator sets or reads;
--   Api: apis/synapse/v1alpha1, with the comparison reflect.DeepEqual of the status records;
--   Env: the code that the operator calls, as parameters: the API client of controller-runtime, the
--     package subreconciler, yaml.v2, mergo.Merge and SetControllerReference. Every call takes the
--     cluster and returns it, a read too. What a theorem relies on is a record of laws: IsSubreconciler,
--     IsKeyed (a read returns the object asked for), IsQuiet (no other client writes meanwhile),
--     IsIsolated (a write touches no other object), IsMerge, KeepsMeta, DecodesSlices. Tests/Memory and
--     Tests/Isolated are an environment that meets all of them;
--   Exec: the body of a subreconciler: an early return, a panic, or a value for the next statement.
--     Exec/Keeps has rights to write (Rights), the predicates that writes within them keep (Respects),
--     and a rule for each kind of statement; a child module Keeps of a component applies these to it;
--   Loop: the loop that ends a Reconcile;
--   Manager: main.go, and SetupWithManager of the three controllers; Manager/Roles: the
--     kubebuilder:rbac markers above their Reconcile;
--   Helpers/Naming, Helpers/Reconcile, Helpers/Config: helpers/utils and helpers/reconcile
--     (SetObjectMeta is set_object_meta, ReconcileResource is reconcile_resource, UpdateConfigMapData is
--     update_config_map_data, and so on: the Go name in lower case with underscores);
--     Helpers/Owned: objects built with their owner set, and the bodies that the controllers share;
--   Synapse/Access, Synapse/Status, Synapse/Controller: synapse_controller.go;
--   Synapse/Config, Synapse/Database: synapse_configmap.go, and updateSynapseStatusDatabase; the child
--     modules of Synapse/Config/Template are the text of homeserver.yaml, one entry for each line;
--   Synapse/Resources, Synapse/Deployment, Synapse/Postgres: the desired objects of synapse_service.go,
--     synapse_pvc.go, synapse_serviceaccount.go, synapse_deployment.go and synapse_postgrescluster.go;
--   Synapse/Children: the subreconcilers that reconcile these objects or edit the ConfigMap;
--   Heisenbridge, MautrixSignal: controllers/synapse/heisenbridge and mautrixsignal, in the same way,
--     with the text of config.yaml in MautrixSignal/Config/Template;
--   Tests: an environment in memory, and the theorems applied to concrete data.
--
-- A subreconciler is a function from the request and the cluster to how it ends (it returns a pair of
-- result and error, or it panics on a nil pointer) and the cluster after it. All recursion is on lists
-- and texts, so there is no fuel; numbers are natural numbers or, where the code has signed ones,
-- integers with the range check of the parser.
--
-- A theorem that says what a reconciliation keeps is about any predicate on the cluster that reads and
-- the allowed writes keep: it needs no quiet cluster, since the predicate has to withstand what other
-- clients do between two calls as well.
--
-- Not modelled: log lines; the parsing of the command line; finalizers, the work queue and the caches
-- of controller-runtime; the generated deep copies; helpers/utils/tests_utils.go, which only tests use.
pub mod Manager
pub mod Base
pub mod Go
pub mod Text
pub mod Kube
pub mod Api
pub mod Env
pub mod Exec
pub mod Loop
pub mod Helpers
pub mod Synapse
pub mod Heisenbridge
pub mod MautrixSignal
mod Tests
