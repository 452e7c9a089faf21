-- ===== src/Synapse/Database/Roundtrip.antt =====
-- From the secret of the PostgresCluster to the status, and from the status to the struct that is
-- written to homeserver.yaml.
use synapse_operator.Base.{
  String, ◌<>◌, ◌≡◌, ◌≢◌, sym, ap, ◌∙◌, inl, inr, Bool-cases, false, some, [], ◌∷◌, ◌==◌, arith,
  eq_iff,
}
use synapse_operator.Go.{ok, ◌>>=◌, ok_bind, ℤ, pos, lookup}
use synapse_operator.Text.Bytes.{bytes, text_of, AllBytes, Lacks, split, split-append}
use synapse_operator.Text.Base64.{base64_encode, base64_decode, base64_decode-base64_encode}
use synapse_operator.Text.Number.{parse_int}
use synapse_operator.Kube.{Secret}
use synapse_operator.Api.{DatabaseConnectionInfo, database_eq, database_eq_iff}
use synapse_operator.Synapse.Database.{
  required, present, host_and_port, empty_info, database_of_secret, database_data,
}

ne_empty : (t : String) → t ≢ "" → (t == "") ≡ false
ne_empty t h = ground (arith, eq_iff t "")

present_ok : (content message : String) → content ≢ "" → present content message ≡ ok content
unfolding present
present_ok content message h = rw (ne_empty content h)

encoded_ne_empty :
    (password : String) → AllBytes (bytes password) → password ≢ "" → base64_encode password ≢ ""
unfolding base64_decode bytes text_of
encoded_ne_empty password is_bytes h e =
    h (sym (base64_decode-base64_encode password is_bytes) ∙ ap base64_decode e)

not_empty_info :
    (info : DatabaseConnectionInfo) → info.user ≢ "" → database_eq info empty_info ≡ false
not_empty_info info h = elim (Bool-cases (database_eq info empty_info)) [
  | inl same ↦
      absurd
        (h (ap (λ (i : DatabaseConnectionInfo). i.user) ((database_eq_iff info empty_info).0 same)))
  | inr differs ↦ differs
]

-- A secret with the five keys, whose host and port hold no colon.
pub record IsDatabaseSecret (secret : Secret) (host port dbname user password : String)
    : Type 0 where
  pub host_given : lookup "host" secret.entries ≡ some host
  pub port_given : lookup "port" secret.entries ≡ some port
  pub dbname_given : lookup "dbname" secret.entries ≡ some dbname
  pub user_given : lookup "user" secret.entries ≡ some user
  pub password_given : lookup "password" secret.entries ≡ some password
  pub host_plain : Lacks 58 host
  pub port_plain : Lacks 58 port

required-given :
    (key message : String) (secret : Secret) (v : String)
    → lookup key secret.entries ≡ some v
    → required key message secret ≡ ok v
unfolding required
required-given key message secret v h = rw (h, required)

-- The status for such a secret.
abbrev info_of : String → String → String → String → DatabaseConnectionInfo
info_of host port user password = record {
  connection_url = host <> (":" <> port);
  database_name = "synapse";
  user = user;
  password = base64_encode password;
  state = "READY";
}

module _ (secret : Secret) (host port dbname user password : String)
    (given : IsDatabaseSecret secret host port dbname user password) where
  database_of_secret-given : database_of_secret secret ≡ ok (info_of host port user password)
  unfolding database_of_secret
  database_of_secret-given =
      ok_bind _ (required-given "host" _ secret host given.host_given)
      ∙ (ok_bind _ (required-given "port" _ secret port given.port_given)
          ∙ (ok_bind _ (required-given "dbname" _ secret dbname given.dbname_given)
              ∙ (ok_bind _ (required-given "user" _ secret user given.user_given)
                  ∙ ok_bind _ (required-given "password" _ secret password given.password_given))))

  split_url : split 58 (host <> (":" <> port)) ≡ host ∷ port ∷ []
  split_url = split-append ":" host port given.host_plain given.port_plain

  url_ne_empty : (host <> (":" <> port)) ≢ ""
  unfolding split
  url_ne_empty e = cc (split_url, ap (split 58) e)

  url_parsed :
      (n : ℤ)
      → parse_int port ≡ ok n
      → host_and_port (host <> (":" <> port)) (split 58 (host <> (":" <> port))) ≡ ok (host, n)
  unfolding host_and_port
  url_parsed n h = rw split_url (ok_bind _ h)

  -- Of a secret of the PostgresCluster with the keys host, port, dbname, user and password, whose host
  -- and port hold no colon: the connection information that is made of it for the status of the
  -- Synapse is read back, as the struct that is written to homeserver.yaml, to its user, its password,
  -- its host and the number of its port, with the database synapse, if user and password are not
  -- empty, the password is a text of bytes and the port parses.
  pub database_data-database_of_secret :
      (n : ℤ)
      → parse_int port ≡ ok n
      → user ≢ ""
      → password ≢ ""
      → AllBytes (bytes password)
      → (database_of_secret secret >>= database_data)
        ≡ ok (record {
          name = "psycopg2";
          txn_limit = pos 0;
          user = user;
          password = password;
          database = "synapse";
          host = host;
          port = n;
          cp_min = pos 5;
          cp_max = pos 10;
        })
  unfolding database_data
  database_data-database_of_secret n port_ok user_ok password_ok is_bytes =
      ok_bind database_data database_of_secret-given
      ∙ rw (not_empty_info (info_of host port user password) user_ok) (
          ok_bind _ (present_ok user _ user_ok)
          ∙ (ok_bind _ (present_ok _ _ (encoded_ne_empty password is_bytes password_ok))
              ∙ (ok_bind _ (present_ok _ _ url_ne_empty)
                  ∙ (ok_bind _ (url_parsed n port_ok)
                      ∙ rw (base64_decode-base64_encode password is_bytes)))))
