-- ===== src/Kube.antt =====
-- The Kubernetes objects that the operator reads and writes, with the fields that it uses:
-- metadata, ConfigMap, Secret, Service, Deployment, PersistentVolumeClaim, ServiceAccount,
-- RoleBinding and PostgresCluster.
use synapse_operator.Base.{ℕ, String, Option, List}

abbrev pub Labels : Type 0
Labels = List (String × String)

pub record OwnerReference : Type 0 where
  pub kind : String
  pub name : String

pub record ObjectMeta : Type 0 where
  pub name : String
  pub namespace : String
  pub labels : Labels
  pub owner_references : List OwnerReference

-- `types.NamespacedName`, which is also the `ctrl.Request` of a reconciliation.
pub record NamespacedName : Type 0 where
  pub name : String
  pub namespace : String

pub record ConfigMap : Type 0 where
  pub meta : ObjectMeta
  pub files : List (String × String)

pub record Secret : Type 0 where
  pub meta : ObjectMeta
  pub entries : List (String × String)

pub record ServicePort : Type 0 where
  pub name : String
  pub protocol : String
  pub port : ℕ
  pub target_port : ℕ

pub record Service : Type 0 where
  pub meta : ObjectMeta
  pub ports : List ServicePort
  pub selector : Labels
  pub service_type : String

pub record EnvVar : Type 0 where
  pub name : String
  pub value : String

pub record VolumeMount : Type 0 where
  pub name : String
  pub mount_path : String

pub record Container : Type 0 where
  pub image : String
  pub name : String
  pub command : List String
  pub args : List String
  pub env : List EnvVar
  pub volume_mounts : List VolumeMount
  pub ports : List ℕ

pub data VolumeSource : Type 0 where
  from_config_map : String → VolumeSource
  from_claim : String → VolumeSource

pub record Volume : Type 0 where
  pub name : String
  pub source : VolumeSource

pub record PodSpec : Type 0 where
  pub init_containers : List Container
  pub containers : List Container
  pub volumes : List Volume
  pub service_account_name : String

pub record Deployment : Type 0 where
  pub meta : ObjectMeta
  pub replicas : ℕ
  pub match_labels : Labels
  pub pod_labels : Labels
  pub pod : PodSpec

pub record PersistentVolumeClaim : Type 0 where
  pub meta : ObjectMeta
  pub access_modes : List String
  pub volume_mode : String
  pub storage : ℕ

pub record ServiceAccount : Type 0 where
  pub meta : ObjectMeta

pub record RoleRef : Type 0 where
  pub api_group : String
  pub kind : String
  pub name : String

pub record Subject : Type 0 where
  pub kind : String
  pub name : String
  pub namespace : String

pub record RoleBinding : Type 0 where
  pub meta : ObjectMeta
  pub role_ref : RoleRef
  pub subjects : List Subject

-- `Replicas` of an instance set is a pointer, and may be nil.
pub record InstanceSet : Type 0 where
  pub name : String
  pub replicas : Option ℕ
  pub access_modes : List String
  pub storage : ℕ

pub record InstanceSetStatus : Type 0 where
  pub name : String
  pub replicas : ℕ
  pub ready_replicas : ℕ
  pub updated_replicas : ℕ

pub record BackupRepo : Type 0 where
  pub name : String
  pub access_modes : List String
  pub storage : ℕ

pub record PostgresUser : Type 0 where
  pub name : String
  pub databases : List String

pub record PostgresClusterSpec : Type 0 where
  pub image : String
  pub postgres_version : ℕ
  pub instance_sets : List InstanceSet
  pub backup_image : String
  pub backup_repos : List BackupRepo
  pub users : List PostgresUser
  pub init_sql_name : String
  pub init_sql_key : String

pub record PostgresCluster : Type 0 where
  pub meta : ObjectMeta
  pub spec : PostgresClusterSpec
  pub instance_statuses : List InstanceSetStatus
