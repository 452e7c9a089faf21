-- ===== src/Api.antt =====
-- The custom resources of apis/synapse/v1alpha1: Synapse, Heisenbridge and MautrixSignal, and the
-- comparison of their statuses, `reflect.DeepEqual`.
use synapse_operator.Base.{String, ◌≡◌, Bool, true, Option, ◌&&◌, ◌==◌, eq_iff, same, ◌↔◌, arith}
use synapse_operator.Go.{ℤ}
use synapse_operator.Kube.{ObjectMeta}

-- A reference to a ConfigMap, or to a Synapse, by name and optional namespace.
pub record ObjectRef : Type 0 where
  pub name : String
  pub namespace : String

pub record SynapseHomeserverValues : Type 0 where
  pub server_name : String
  pub report_stats : Bool

-- `none` is a nil pointer.
pub record SynapseHomeserver : Type 0 where
  pub config_map : Option ObjectRef
  pub values : Option SynapseHomeserverValues

pub record SynapseSpec : Type 0 where
  pub homeserver : SynapseHomeserver
  pub create_new_postgresql : Bool
  pub is_openshift : Bool

pub record DatabaseConnectionInfo : Type 0 where
  pub connection_url : String
  pub database_name : String
  pub user : String
  pub password : String
  pub state : String

pub record HomeserverConfiguration : Type 0 where
  pub server_name : String
  pub report_stats : Bool

pub record BridgeStatus : Type 0 where
  pub enabled : Bool
  pub name : String

pub record StatusBridges : Type 0 where
  pub heisenbridge : BridgeStatus
  pub mautrix_signal : BridgeStatus

pub record SynapseStatus : Type 0 where
  pub database_connection_info : DatabaseConnectionInfo
  pub homeserver_configuration : HomeserverConfiguration
  pub bridges : StatusBridges
  pub state : String
  pub reason : String
  pub needs_reconcile : Bool

pub record Synapse : Type 0 where
  pub meta : ObjectMeta
  pub spec : SynapseSpec
  pub status : SynapseStatus

pub record HeisenbridgeSpec : Type 0 where
  pub config_map : ObjectRef
  pub verbose_level : ℤ
  pub synapse : ObjectRef

pub record HeisenbridgeStatus : Type 0 where
  pub state : String
  pub reason : String

pub record Heisenbridge : Type 0 where
  pub meta : ObjectMeta
  pub spec : HeisenbridgeSpec
  pub status : HeisenbridgeStatus

pub record MautrixSignalSpec : Type 0 where
  pub config_map : ObjectRef
  pub synapse : ObjectRef

pub record MautrixSignalStatus : Type 0 where
  pub state : String
  pub reason : String
  pub server_name : String
  pub is_openshift : Bool

pub record MautrixSignal : Type 0 where
  pub meta : ObjectMeta
  pub spec : MautrixSignalSpec
  pub status : MautrixSignalStatus

-- `reflect.DeepEqual`, field by field.
unfoldable pub database_eq : DatabaseConnectionInfo → DatabaseConnectionInfo → Bool
database_eq a b =
    a.connection_url == b.connection_url
    && a.database_name == b.database_name
    && a.user == b.user
    && a.password == b.password
    && a.state == b.state

unfoldable pub homeserver_eq : HomeserverConfiguration → HomeserverConfiguration → Bool
homeserver_eq a b = a.server_name == b.server_name && same a.report_stats b.report_stats

unfoldable pub bridge_eq : BridgeStatus → BridgeStatus → Bool
bridge_eq a b = same a.enabled b.enabled && a.name == b.name

unfoldable pub synapse_status_eq : SynapseStatus → SynapseStatus → Bool
synapse_status_eq a b =
    database_eq a.database_connection_info b.database_connection_info
    && homeserver_eq a.homeserver_configuration b.homeserver_configuration
    && bridge_eq a.bridges.heisenbridge b.bridges.heisenbridge
    && bridge_eq a.bridges.mautrix_signal b.bridges.mautrix_signal
    && a.state == b.state
    && a.reason == b.reason
    && same a.needs_reconcile b.needs_reconcile

unfoldable pub heisenbridge_status_eq : HeisenbridgeStatus → HeisenbridgeStatus → Bool
heisenbridge_status_eq a b = a.state == b.state && a.reason == b.reason

unfoldable pub mautrix_signal_status_eq : MautrixSignalStatus → MautrixSignalStatus → Bool
mautrix_signal_status_eq a b =
    a.state == b.state
    && a.reason == b.reason
    && a.server_name == b.server_name
    && same a.is_openshift b.is_openshift

same_iff : (a b : Bool) → (same a b ≡ true) ↔ (a ≡ b)
same_iff a b = ground arith

pub database_eq_iff : (a b : DatabaseConnectionInfo) → (database_eq a b ≡ true) ↔ (a ≡ b)
unfolding database_eq
database_eq_iff a b = ground (
  arith,
  eq_iff a.connection_url b.connection_url,
  eq_iff a.database_name b.database_name,
  eq_iff a.user b.user,
  eq_iff a.password b.password,
  eq_iff a.state b.state,
)

homeserver_eq_iff : (a b : HomeserverConfiguration) → (homeserver_eq a b ≡ true) ↔ (a ≡ b)
unfolding homeserver_eq
homeserver_eq_iff a b =
    ground (arith, eq_iff a.server_name b.server_name, same_iff a.report_stats b.report_stats)

bridge_eq_iff : (a b : BridgeStatus) → (bridge_eq a b ≡ true) ↔ (a ≡ b)
unfolding bridge_eq
bridge_eq_iff a b = ground (arith, eq_iff a.name b.name, same_iff a.enabled b.enabled)

-- The comparison decides equality of statuses.
pub synapse_status_eq_iff : (a b : SynapseStatus) → (synapse_status_eq a b ≡ true) ↔ (a ≡ b)
unfolding synapse_status_eq
synapse_status_eq_iff a b = ground (
  arith,
  database_eq_iff a.database_connection_info b.database_connection_info,
  homeserver_eq_iff a.homeserver_configuration b.homeserver_configuration,
  bridge_eq_iff a.bridges.heisenbridge b.bridges.heisenbridge,
  bridge_eq_iff a.bridges.mautrix_signal b.bridges.mautrix_signal,
  eq_iff a.state b.state,
  eq_iff a.reason b.reason,
  same_iff a.needs_reconcile b.needs_reconcile,
)

pub heisenbridge_status_eq_iff :
    (a b : HeisenbridgeStatus) → (heisenbridge_status_eq a b ≡ true) ↔ (a ≡ b)
unfolding heisenbridge_status_eq
heisenbridge_status_eq_iff a b = ground (arith, eq_iff a.state b.state, eq_iff a.reason b.reason)

pub mautrix_signal_status_eq_iff :
    (a b : MautrixSignalStatus) → (mautrix_signal_status_eq a b ≡ true) ↔ (a ≡ b)
unfolding mautrix_signal_status_eq
mautrix_signal_status_eq_iff a b = ground (
  arith,
  eq_iff a.state b.state,
  eq_iff a.reason b.reason,
  eq_iff a.server_name b.server_name,
  same_iff a.is_openshift b.is_openshift,
)
