-- ===== src/Synapse/Config/Template/Email.antt =====
-- E-mail, in the text that `configMapForSynapse` of
-- controllers/synapse/synapse/synapse_configmap.go writes to homeserver.yaml.
use synapse_operator.Base.{String, List, [], ◌∷◌}

abbrev pub email_lines : List String
email_lines =
    "  # Username/password for authentication to the SMTP server. By default, no"
    ∷ "  # authentication is attempted." ∷ "  #" ∷ "  #smtp_user: \"exampleusername\""
    ∷ "  #smtp_pass: \"examplepassword\"" ∷ ""
    ∷ "  # Uncomment the following to require TLS transport security for SMTP."
    ∷ "  # By default, Synapse will connect over plain text, and will then switch to"
    ∷ "  # TLS via STARTTLS *if the SMTP server supports it*. If this option is set,"
    ∷ "  # Synapse will refuse to connect unless the server supports STARTTLS." ∷ "  #"
    ∷ "  #require_transport_security: true" ∷ ""
    ∷ "  # notif_from defines the \"From\" address to use when sending emails."
    ∷ "  # It must be set if email sending is enabled." ∷ "  #"
    ∷ "  # The placeholder '%(app)s' will be replaced by the application name,"
    ∷ "  # which is normally 'app_name' (below), but may be overridden by the"
    ∷ "  # Matrix client application." ∷ "  #"
    ∷ "  # Note that the placeholder must be written '%(app)s', including the" ∷ "  # trailing 's'."
    ∷ "  #" ∷ "  #notif_from: \"Your Friendly %(app)s homeserver <noreply@example.com>\"" ∷ ""
    ∷ "  # app_name defines the default value for '%(app)s' in notif_from and email"
    ∷ "  # subjects. It defaults to 'Matrix'." ∷ "  #" ∷ "  #app_name: my_branded_matrix_server"
    ∷ "" ∷ "  # Uncomment the following to enable sending emails for messages that the user"
    ∷ "  # has missed. Disabled by default." ∷ "  #" ∷ "  #enable_notifs: true" ∷ ""
    ∷ "  # Uncomment the following to disable automatic subscription to email"
    ∷ "  # notifications for new users. Enabled by default." ∷ "  #"
    ∷ "  #notif_for_new_users: false" ∷ ""
    ∷ "  # Custom URL for client links within the email notifications. By default"
    ∷ "  # links will be based on \"https://matrix.to\"." ∷ "  #"
    ∷ "  # (This setting used to be called riot_base_url; the old name is still"
    ∷ "  # supported for backwards-compatibility but is now deprecated.)" ∷ "  #"
    ∷ "  #client_base_url: \"http://localhost/riot\"" ∷ ""
    ∷ "  # Configure the time that a validation email will expire after sending."
    ∷ "  # Defaults to 1h." ∷ "  #" ∷ "  #validation_token_lifetime: 15m" ∷ ""
    ∷ "  # The web client location to direct users to during an invite. This is passed"
    ∷ "  # to the identity server as the org.matrix.web_client_location key. Defaults"
    ∷ "  # to unset, giving no guidance to the identity server." ∷ "  #"
    ∷ "  #invite_client_location: https://app.element.io" ∷ "" ∷ []
