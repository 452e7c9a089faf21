-- ===== src/Synapse/Config/Template.antt =====
-- The homeserver.yaml of a Synapse that gives values: the text in `configMapForSynapse` of
-- controllers/synapse/synapse/synapse_configmap.go, line by line, its parts in the child modules.
pub mod Accounts
pub mod Blocking
pub mod Active
pub mod Cas
pub mod Email
pub mod Federation
pub mod Keys
pub mod Limits
pub mod Listeners
pub mod Mails
pub mod Mapping
pub mod Media
pub mod Metrics
pub mod Oidc
pub mod Passwords
pub mod Previews
pub mod Registration
pub mod Retention
pub mod Rooms
pub mod Rules
pub mod Saml
pub mod Server
pub mod Storage
pub mod Tls
pub mod Workers
use synapse_operator.Base.{String, List, [], ◌∷◌}
use synapse_operator.Text.Lines.{joined, concat}
use synapse_operator.Api.{SynapseHomeserverValues}
use synapse_operator.Synapse.Config.Template.Server.{server_lines}
use synapse_operator.Synapse.Config.Template.Listeners.{listener_lines}
use synapse_operator.Synapse.Config.Template.Blocking.{blocking_lines}
use synapse_operator.Synapse.Config.Template.Retention.{retention_lines}
use synapse_operator.Synapse.Config.Template.Tls.{tls_lines}
use synapse_operator.Synapse.Config.Template.Federation.{federation_lines}
use synapse_operator.Synapse.Config.Template.Storage.{storage_lines}
use synapse_operator.Synapse.Config.Template.Limits.{limit_lines}
use synapse_operator.Synapse.Config.Template.Media.{media_lines}
use synapse_operator.Synapse.Config.Template.Previews.{preview_lines}
use synapse_operator.Synapse.Config.Template.Registration.{registration_lines}
use synapse_operator.Synapse.Config.Template.Accounts.{account_lines}
use synapse_operator.Synapse.Config.Template.Metrics.{metrics_lines}
use synapse_operator.Synapse.Config.Template.Keys.{key_lines}
use synapse_operator.Synapse.Config.Template.Saml.{saml_lines}
use synapse_operator.Synapse.Config.Template.Mapping.{mapping_lines}
use synapse_operator.Synapse.Config.Template.Oidc.{oidc_lines}
use synapse_operator.Synapse.Config.Template.Cas.{cas_lines}
use synapse_operator.Synapse.Config.Template.Passwords.{password_lines}
use synapse_operator.Synapse.Config.Template.Email.{email_lines}
use synapse_operator.Synapse.Config.Template.Mails.{mail_lines}
use synapse_operator.Synapse.Config.Template.Rooms.{room_lines}
use synapse_operator.Synapse.Config.Template.Rules.{rule_lines}
use synapse_operator.Synapse.Config.Template.Workers.{worker_lines}

unfoldable pub homeserver_parts : SynapseHomeserverValues → List (List String)
homeserver_parts v =
    server_lines v
    ∷ listener_lines
    ∷ blocking_lines
    ∷ retention_lines
    ∷ tls_lines
    ∷ federation_lines
    ∷ storage_lines v
    ∷ limit_lines
    ∷ media_lines
    ∷ preview_lines
    ∷ registration_lines
    ∷ account_lines
    ∷ metrics_lines v
    ∷ key_lines v
    ∷ saml_lines
    ∷ mapping_lines
    ∷ oidc_lines
    ∷ cas_lines
    ∷ password_lines
    ∷ email_lines
    ∷ mail_lines
    ∷ room_lines
    ∷ rule_lines
    ∷ worker_lines
    ∷ []

unfoldable pub homeserver_lines : SynapseHomeserverValues → List String
homeserver_lines v = concat (homeserver_parts v)

unfoldable pub homeserver_yaml : SynapseHomeserverValues → String
homeserver_yaml v = joined (homeserver_lines v)
