-- ===== src/Synapse/Config/Template/Active.antt =====
-- What the text of homeserver.yaml sets, its comments left out.
use synapse_operator.Base.{String, ◌<>◌, ◌≡◌, refl, ap, ◌∙◌, Bool, true, false, List, [], ◌∷◌}
use synapse_operator.Text.Bytes.{split}
use synapse_operator.Text.Lines.{
  concat, is_active, active, kept_if, is_line, all_lines, is_active-append, is_line-append,
  split-joined,
}
use synapse_operator.Api.{SynapseHomeserverValues}
use synapse_operator.Helpers.Naming.{bool_to_string}
use synapse_operator.Synapse.Config.Template.{homeserver_parts, homeserver_lines, homeserver_yaml}
use synapse_operator.Synapse.Config.Template.Server.{server_lines}
use synapse_operator.Synapse.Config.Template.Storage.{storage_lines}
use synapse_operator.Synapse.Config.Template.Metrics.{metrics_lines}
use synapse_operator.Synapse.Config.Template.Keys.{key_lines}

-- The settings of homeserver.yaml for the values given.
unfoldable pub settings : SynapseHomeserverValues → List String
settings v =
    ("server_name: \"" <> (v.server_name <> "\""))
    ∷ "pid_file: /homeserver.pid"
    ∷ "listeners:"
    ∷ "  - port: 8008"
    ∷ "    tls: false"
    ∷ "    type: http"
    ∷ "    x_forwarded: true"
    ∷ "    resources:"
    ∷ "      - names: [client, federation]"
    ∷ "        compress: false"
    ∷ "limit_remote_rooms:"
    ∷ "retention:"
    ∷ "acme:"
    ∷ "    enabled: false"
    ∷ "    port: 80"
    ∷ "    bind_addresses: ['::', '0.0.0.0']"
    ∷ "    reprovision_threshold: 30"
    ∷ "    domain: matrix.example.com"
    ∷ "    account_key_file: /acme_account.key"
    ∷ "caches:"
    ∷ "   per_cache_factors:"
    ∷ "database:"
    ∷ "  name: sqlite3"
    ∷ "  args:"
    ∷ "    database: /data/homeserver.db"
    ∷ ("log_config: \"/data/" <> (v.server_name <> ".log.config\""))
    ∷ "media_store_path: \"/data/media_store\""
    ∷ "url_preview_accept_language:"
    ∷ "account_validity:"
    ∷ "registration_shared_secret: \":Cc*s^6_Xm*zcxu.jcxJXN=zGFaMzaUgmsP^gnCRFYg3,Tacsx\""
    ∷ "account_threepid_delegates:"
    ∷ "metrics_flags:"
    ∷ ("report_stats: " <> bool_to_string v.report_stats)
    ∷ "macaroon_secret_key: \"EVr3uuImrTyxDVY1ukw*;r^zu1Y#8UkAp0@Bl8i9rzi~-+n95;\""
    ∷ "form_secret: \"uD#~UE2pAzLUQIvj8x1;0iCzNL-UcUs1._WtUGXHRp@1Ogmyg4\""
    ∷ ("signing_key_path: \"data/" <> (v.server_name <> ".signing.key\""))
    ∷ "old_signing_keys:"
    ∷ "trusted_key_servers:"
    ∷ "  - server_name: \"matrix.org\""
    ∷ "saml2_config:"
    ∷ "  sp_config:"
    ∷ "  user_mapping_provider:"
    ∷ "    config:"
    ∷ "oidc_config:"
    ∷ "  user_mapping_provider:"
    ∷ "    config:"
    ∷ "cas_config:"
    ∷ "sso:"
    ∷ "    password_config:"
    ∷ "    policy:"
    ∷ "      ui_auth:"
    ∷ "email:"
    ∷ "password_providers:"
    ∷ "push:"
    ∷ "spam_checker:"
    ∷ "opentracing:"
    ∷ "redis:"
    ∷ []

bool_to_string-is_line : (b : Bool) → is_line (bool_to_string b) ≡ true
unfolding bool_to_string is_line
bool_to_string-is_line true = refl
bool_to_string-is_line false = refl

homeserver_lines-active : (v : SynapseHomeserverValues) → active (homeserver_lines v) ≡ settings v
unfolding active is_active kept_if concat homeserver_lines homeserver_parts settings server_lines
    storage_lines metrics_lines key_lines
homeserver_lines-active v =
    rw
      (
        is_active-append "server_name: \"" (v.server_name <> "\"") refl,
        is_active-append "log_config: \"/data/" (v.server_name <> ".log.config\"") refl,
        is_active-append "report_stats: " (bool_to_string v.report_stats) refl,
        is_active-append "signing_key_path: \"data/" (v.server_name <> ".signing.key\"") refl,
      )
      refl

homeserver_lines-all_lines :
    (v : SynapseHomeserverValues)
    → is_line v.server_name ≡ true
    → all_lines (homeserver_lines v) ≡ true
unfolding all_lines is_line homeserver_lines homeserver_parts concat server_lines storage_lines
    metrics_lines key_lines
homeserver_lines-all_lines v h =
    let around : (before after : String)
        → is_line before ≡ true
        → is_line after ≡ true
        → is_line (before <> (v.server_name <> after)) ≡ true =
      λ before after hb ha.
        is_line-append before (v.server_name <> after) hb
          (is_line-append v.server_name after h ha) in
    rw
      (
        around "server_name: \"" "\"" refl refl,
        around "log_config: \"/data/" ".log.config\"" refl refl,
        is_line-append "report_stats: " (bool_to_string v.report_stats) refl
            (bool_to_string-is_line v.report_stats),
        around "signing_key_path: \"data/" ".signing.key\"" refl refl,
      )
      refl

split-homeserver_yaml :
    (v : SynapseHomeserverValues)
    → is_line v.server_name ≡ true
    → split 10 (homeserver_yaml v) ≡ homeserver_lines v
unfolding homeserver_yaml homeserver_lines homeserver_parts server_lines concat
split-homeserver_yaml v h = split-joined _ _ (homeserver_lines-all_lines v h)

-- For a server name without a line feed, the lines of the homeserver.yaml that the operator writes
-- that are neither blank nor comments are the settings listed: the values stand under `server_name`
-- and `report_stats`, the log and the signing key are named after the server, and all else is the
-- same for every Synapse, the three keys of `registration_shared_secret`, `macaroon_secret_key` and
-- `form_secret` included.
pub homeserver_yaml-settings :
    (v : SynapseHomeserverValues)
    → is_line v.server_name ≡ true
    → active (split 10 (homeserver_yaml v)) ≡ settings v
homeserver_yaml-settings v h = ap active (split-homeserver_yaml v h) ∙ homeserver_lines-active v
