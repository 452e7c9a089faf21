-- ===== src/Synapse/Database.antt =====
-- The database connection: `updateSynapseStatusDatabase` of
-- controllers/synapse/synapse/synapse_controller.go, which reads the secret of the PostgresCluster
-- into the status, and `fetchDatabaseDataFromSynapseStatus` of
-- controllers/synapse/synapse/synapse_configmap.go, which reads the status into homeserver.yaml.
pub mod Roundtrip
use synapse_operator.Base.{String, ◌<>◌, none, some, List, ◌∷◌, ◌==◌, if◌then◌else◌}
use synapse_operator.Go.{
  new, Result, ok, err, ◌>>=◌, ℤ, pos, lookup, Value, text, int, dict, Fields, end, field,
}
use synapse_operator.Text.Bytes.{split}
use synapse_operator.Text.Base64.{base64_encode, base64_decode}
use synapse_operator.Text.Number.{parse_int}
use synapse_operator.Kube.{Secret}
use synapse_operator.Api.{Synapse, DatabaseConnectionInfo, database_eq}
use synapse_operator.Env.{Yaml}

-- `x, ok := data[key]`, and the error of a missing key.
required : String → String → Secret → Result String
required key message s = elim (lookup key s.entries) [ none ↦ err (new message) | some v ↦ ok v ]

-- What the secret says of the database.
unfoldable pub database_of_secret : Secret → Result DatabaseConnectionInfo
unfolding required
database_of_secret s = do
  host ← required "host" "missing host in PostgreSQL Secret" s
  port ← required "port" "missing port in PostgreSQL Secret" s
  dbname ← required "dbname" "missing dbname in PostgreSQL Secret" s
  user ← required "user" "missing user in PostgreSQL Secret" s
  password ← required "password" "missing password in PostgreSQL Secret" s
  ok (record {
    connection_url = host <> (":" <> port);
    database_name = "synapse";
    user = user;
    password = base64_encode password;
    state = "READY";
  })

unfoldable pub update_synapse_status_database : Synapse → Secret → Result Synapse
unfolding database_of_secret
update_synapse_status_database s postgres_secret = do
  info ← database_of_secret postgres_secret
  ok (record s { status = record (s.status) { database_connection_info = info } })

pub record HomeserverPgsqlDatabase : Type 0 where
  pub name : String
  pub txn_limit : ℤ
  pub user : String
  pub password : String
  pub database : String
  pub host : String
  pub port : ℤ
  pub cp_min : ℤ
  pub cp_max : ℤ

-- The struct as YAML sees it: the keys are those of its `yaml` tags.
unfoldable pub value_of_database : HomeserverPgsqlDatabase → Value
value_of_database d = dict (
    field "name" (text d.name) (
      field "txn_limit" (int d.txn_limit) (
        field "args"
          (dict (
            field "user" (text d.user) (
              field "password" (text d.password) (
                field "database" (text d.database) (
                  field "host" (text d.host) (
                    field "port" (int d.port)
                      (field "cp_min" (int d.cp_min) (field "cp_max" (int d.cp_max) end))))))))
          end)))

abbrev empty_info : DatabaseConnectionInfo
empty_info = record {
  connection_url = "";
  database_name = "";
  user = "";
  password = "";
  state = "";
}

-- `if field == "" { return …, errors.New(message) }`
present : String → String → Result String
present content message = if content == "" then err (new message) else ok content

-- Host and port: the first two parts of the URL.
host_and_port : String → List String → Result (String × ℤ)
host_and_port url (host ∷ (port ∷ rest)) = do n ← parse_int port; ok (host, n)
host_and_port url parts = err (new ("error parsing the Connection URL with value: " <> url))

unfoldable pub database_data : DatabaseConnectionInfo → Result HomeserverPgsqlDatabase
unfolding present host_and_port
database_data info =
    if database_eq info empty_info
    then err (new "missing DatabaseConnectionInfo in Synapse status")
    else do
      user ← present info.user "missing User in DatabaseConnectionInfo"
      password ← present info.password "missing Password in DatabaseConnectionInfo"
      database ← present info.database_name "missing DatabaseName in DatabaseConnectionInfo"
      url ← present info.connection_url "missing ConnectionURL in DatabaseConnectionInfo"
      (host, port) ← host_and_port url (split 58 url)
      ok (record {
        name = "psycopg2";
        txn_limit = pos 0;
        user = user;
        password = base64_decode password;
        database = database;
        host = host;
        port = port;
        cp_min = pos 5;
        cp_max = pos 10;
      })

-- `ConvertStructToMap` of helpers/utils/utils.go
unfoldable pub convert_struct_to_map : Yaml → Value → Result Fields
convert_struct_to_map y v = do content ← y.marshal v; y.unmarshal content

unfoldable pub fetch_database_data : Yaml → DatabaseConnectionInfo → Result Fields
unfolding database_data convert_struct_to_map
fetch_database_data y info = do
  d ← database_data info
  convert_struct_to_map y (value_of_database d)
