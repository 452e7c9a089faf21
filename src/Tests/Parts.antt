-- ===== src/Tests/Parts.antt =====
-- Concrete inputs for the theorems on the parts of the operator that touch no cluster, and for
-- those on the child resources.
use synapse_operator.Base.{◌≡◌, ◌↔◌, arith, refl, true, false, some, [], ◌∷◌}
use synapse_operator.Go.{ok, ◌>>=◌, pos, lookup}
use synapse_operator.Text.Bytes.{AllBytes, bytes}
use synapse_operator.Text.Base64.{base64_encode, base64_decode, base64_decode-base64_encode}
use synapse_operator.Text.Number.{parse_int}
use synapse_operator.Kube.{ObjectMeta, ConfigMap, Secret, PostgresCluster}
use synapse_operator.Api.{Synapse, Heisenbridge, MautrixSignal, BridgeStatus}
use synapse_operator.Helpers.Config.{update_config_map_data, load_yaml_file}
use synapse_operator.Helpers.Config.Edits.{Edited, update_config_map_data_iff}
use synapse_operator.Synapse.Access.{empty_synapse}
use synapse_operator.Synapse.Database.{database_of_secret, database_data}
use synapse_operator.Synapse.Database.Roundtrip.{IsDatabaseSecret, database_data-database_of_secret}
use synapse_operator.Synapse.Status.{find_heisenbridge}
use synapse_operator.Synapse.Status.Bridges.{find_heisenbridge_last, last_heisenbridge}
use synapse_operator.Synapse.Deployment.{pod_for_synapse}
use synapse_operator.Synapse.Deployment.Wiring.{mounts_bound, mounts_bound-pod_for_synapse}
use synapse_operator.Synapse.Postgres.{passes, is_postgres_cluster_ready}
use synapse_operator.Synapse.Postgres.Ready.{AllUp, is_postgres_cluster_ready_iff}
use synapse_operator.Synapse.Config.{
  parse_homeserver_config_map, update_homeserver_with_heisenbridge_infos,
  update_homeserver_with_mautrix_signal_infos, heisenbridge_file, mautrix_signal_file,
}
use synapse_operator.Synapse.Config.Parse.{Accepted, parse_homeserver_config_map_iff, configured}
use synapse_operator.Synapse.Config.AppServices.{RegistersOnly, mautrix_signal-RegistersOnly}
use synapse_operator.Synapse.Controller.{steps_for, config_heisenbridge}
use synapse_operator.Synapse.Controller.Steps.{
  InOrder, has_step, wanted, steps_for-InOrder, has_step-steps_for,
}
use synapse_operator.Tests.Memory.{memory, yaml-DecodesSlices}

abbrev here : ObjectMeta
here = record { name = "matrix"; namespace = "chat"; labels = []; owner_references = [] }

abbrev bridged : Synapse
bridged = record empty_synapse {
  meta = here;
  status = record (empty_synapse.status) {
    bridges = record {
      heisenbridge = record { enabled = true; name = "irc" };
      mautrix_signal = record { enabled = true; name = "signal" };
    };
  };
}

password_bytes : AllBytes (bytes "p4ss")
unfolding bytes
password_bytes = (omega arith, (omega arith, (omega arith, (omega arith, tt))))

base64_decode-base64_encode_example : base64_decode (base64_encode "p4ss") ≡ "p4ss"
base64_decode-base64_encode_example = base64_decode-base64_encode "p4ss" password_bytes

abbrev secret : Secret
secret = record {
  meta = here;
  entries =
      ("host", "db")
      ∷ ("port", "5432")
      ∷ ("dbname", "synapse")
      ∷ ("user", "synapse")
      ∷ ("password", "p4ss")
      ∷ [];
}

secret-IsDatabaseSecret : IsDatabaseSecret secret "db" "5432" "synapse" "synapse" "p4ss"
unfolding lookup
secret-IsDatabaseSecret = record {
  host_given = refl;
  port_given = refl;
  dbname_given = refl;
  user_given = refl;
  password_given = refl;
  host_plain = (refl, (refl, tt));
  port_plain = (refl, (refl, (refl, (refl, tt))));
}

database_data-database_of_secret_example :
    (database_of_secret secret >>= database_data)
    ≡ ok (record {
      name = "psycopg2";
      txn_limit = pos 0;
      user = "synapse";
      password = "p4ss";
      database = "synapse";
      host = "db";
      port = pos 5432;
      cp_min = pos 5;
      cp_max = pos 10;
    })
unfolding parse_int
database_data-database_of_secret_example =
    database_data-database_of_secret secret "db" "5432" "synapse" "synapse" "p4ss"
      secret-IsDatabaseSecret (pos 5432) refl (λ h. cc) (λ h. cc) password_bytes

abbrev irc : Heisenbridge
irc = record {
  meta = record here { name = "irc" };
  spec = record {
    config_map = record { name = ""; namespace = "" };
    verbose_level = pos 0;
    synapse = record { name = "matrix"; namespace = "elsewhere" };
  };
  status = record { state = ""; reason = "" };
}

abbrev signal : MautrixSignal
signal = record {
  meta = record here { name = "signal" };
  spec = record {
    config_map = record { name = ""; namespace = "" };
    synapse = record { name = "matrix"; namespace = "chat" };
  };
  status = record { state = ""; reason = ""; server_name = ""; is_openshift = false };
}

abbrev disabled : BridgeStatus
disabled = record { enabled = false; name = "" }

find_heisenbridge_last_example :
    find_heisenbridge "matrix" (irc ∷ []) disabled ≡ record { enabled = true; name = "irc" }
unfolding last_heisenbridge
find_heisenbridge_last_example = find_heisenbridge_last "matrix" (irc ∷ []) disabled

mounts_bound-pod_for_synapse_example : mounts_bound (pod_for_synapse bridged here) ≡ true
mounts_bound-pod_for_synapse_example = mounts_bound-pod_for_synapse bridged here

abbrev cluster : PostgresCluster
cluster = record {
  meta = here;
  spec = record {
    image = "postgres";
    postgres_version = 14;
    instance_sets =
        (record { name = "instance1"; replicas = some 1; access_modes = []; storage = 1 }) ∷ [];
    backup_image = "backrest";
    backup_repos = [];
    users = [];
    init_sql_name = "";
    init_sql_key = "";
  };
  instance_statuses =
      (record { name = "instance1"; replicas = 1; ready_replicas = 1; updated_replicas = 1 }) ∷ [];
}

is_postgres_cluster_ready_iff_example :
    (is_postgres_cluster_ready cluster ≡ passes)
    ↔ AllUp cluster.spec.instance_sets cluster.instance_statuses
is_postgres_cluster_ready_iff_example = is_postgres_cluster_ready_iff cluster

abbrev homeserver : ConfigMap
homeserver = record { meta = here; files = ("homeserver.yaml", "server_name: example.com") ∷ [] }

abbrev edited : ConfigMap
edited = record { meta = here; files = ("homeserver.yaml", "written") ∷ [] }

update_config_map_data_iff_example :
    (update_config_map_data
        (memory true)
        homeserver
        update_homeserver_with_heisenbridge_infos
        "homeserver.yaml"
      ≡ ok edited)
    ↔ Edited
        (memory true)
        homeserver
        update_homeserver_with_heisenbridge_infos
        "homeserver.yaml"
        edited
update_config_map_data_iff_example =
    update_config_map_data_iff (memory true) homeserver update_homeserver_with_heisenbridge_infos
      "homeserver.yaml" edited

parse_homeserver_config_map_iff_example :
    (parse_homeserver_config_map (memory true) bridged homeserver
      ≡ ok (configured bridged "example.com" true))
    ↔ Accepted (memory true) bridged homeserver (configured bridged "example.com" true)
parse_homeserver_config_map_iff_example =
    parse_homeserver_config_map_iff (memory true) bridged homeserver
      (configured bridged "example.com" true)

mautrix_signal-RegistersOnly_example :
    RegistersOnly (memory true) heisenbridge_file homeserver edited
    × RegistersOnly (memory true) mautrix_signal_file edited edited
unfolding update_config_map_data update_homeserver_with_heisenbridge_infos
    update_homeserver_with_mautrix_signal_infos load_yaml_file lookup
mautrix_signal-RegistersOnly_example =
    mautrix_signal-RegistersOnly (memory true) yaml-DecodesSlices homeserver edited edited refl refl

steps_for-InOrder_example : InOrder 0 (steps_for bridged)
steps_for-InOrder_example = steps_for-InOrder bridged

has_step-steps_for_example : has_step config_heisenbridge (steps_for bridged) ≡ true
unfolding wanted
has_step-steps_for_example = has_step-steps_for bridged config_heisenbridge
