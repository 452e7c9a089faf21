-- ===== src/Synapse/Config/Template/Metrics.antt =====
-- The metrics and the API, in the text that `configMapForSynapse` of
-- controllers/synapse/synapse/synapse_configmap.go writes to homeserver.yaml.
use synapse_operator.Base.{String, ◌<>◌, List, [], ◌∷◌}
use synapse_operator.Api.{SynapseHomeserverValues}
use synapse_operator.Helpers.Naming.{bool_to_string}

unfoldable pub metrics_lines : SynapseHomeserverValues → List String
unfolding bool_to_string
metrics_lines v =
    "## Metrics ###"
    ∷ ""
    ∷ "# Enable collection and rendering of performance metrics"
    ∷ "#"
    ∷ "#enable_metrics: false"
    ∷ ""
    ∷ "# Enable sentry integration"
    ∷ "# NOTE: While attempts are made to ensure that the logs don't contain"
    ∷ "# any sensitive information, this cannot be guaranteed. By enabling"
    ∷ "# this option the sentry server may therefore receive sensitive"
    ∷ "# information, and it in turn may then diseminate sensitive information"
    ∷ "# through insecure notification channels if so configured."
    ∷ "#"
    ∷ "#sentry:"
    ∷ "#    dsn: \"...\""
    ∷ ""
    ∷ "# Flags to enable Prometheus metrics which are not suitable to be"
    ∷ "# enabled by default, either for performance reasons or limited use."
    ∷ "#"
    ∷ "metrics_flags:"
    ∷ "    # Publish synapse_federation_known_servers, a gauge of the number of"
    ∷ "    # servers this homeserver knows about, including itself. May cause"
    ∷ "    # performance problems on large homeservers."
    ∷ "    #"
    ∷ "    #known_servers: true"
    ∷ ""
    ∷ "    # Whether or not to report anonymized homeserver usage statistics."
    ∷ "#"
    ∷ ("report_stats: " <> bool_to_string v.report_stats)
    ∷ ""
    ∷ "# The endpoint to report the anonymized homeserver usage statistics to."
    ∷ "# Defaults to https://matrix.org/report-usage-stats/push"
    ∷ "#"
    ∷ "#report_stats_endpoint: https://example.com/report-usage-stats/push"
    ∷ ""
    ∷ ""
    ∷ "## API Configuration ##"
    ∷ ""
    ∷ "# A list of event types that will be included in the room_invite_state"
    ∷ "#"
    ∷ "#room_invite_state_types:"
    ∷ "#  - \"m.room.join_rules\""
    ∷ "#  - \"m.room.canonical_alias\""
    ∷ "#  - \"m.room.avatar\""
    ∷ "#  - \"m.room.encryption\""
    ∷ "#  - \"m.room.name\""
    ∷ ""
    ∷ ""
    ∷ "# A list of application service config files to use"
    ∷ "#"
    ∷ "#app_service_config_files:"
    ∷ "#  - app_service_1.yaml"
    ∷ "#  - app_service_2.yaml"
    ∷ ""
    ∷ "# Uncomment to enable tracking of application service IP addresses. Implicitly"
    ∷ "# enables MAU tracking for application service users."
    ∷ "#"
    ∷ "#track_appservice_user_ips: true"
    ∷ ""
    ∷ ""
    ∷ "# a secret which is used to sign access tokens. If none is specified,"
    ∷ "# the registration_shared_secret is used, if one is given; otherwise,"
    ∷ "# a secret key is derived from the signing key."
    ∷ "#"
    ∷ "macaroon_secret_key: \"EVr3uuImrTyxDVY1ukw*;r^zu1Y#8UkAp0@Bl8i9rzi~-+n95;\""
    ∷ ""
    ∷ "# a secret which is used to calculate HMACs for form values, to stop"
    ∷ "# falsification of values. Must be specified for the User Consent"
    ∷ "# forms to work."
    ∷ "#"
    ∷ "form_secret: \"uD#~UE2pAzLUQIvj8x1;0iCzNL-UcUs1._WtUGXHRp@1Ogmyg4\""
    ∷ ""
    ∷ []
