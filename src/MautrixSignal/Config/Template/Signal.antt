-- ===== src/MautrixSignal/Config/Template/Signal.antt =====
-- The metrics, the manhole and signald, in the text that `configMapForMautrixSignal` of
-- controllers/synapse/mautrixsignal/mautrixsignal_configmap.go writes to config.yaml.
use synapse_operator.Base.{String, List, [], ◌∷◌}

abbrev pub signal_lines : List String
signal_lines =
    "" ∷ "# Prometheus telemetry config. Requires prometheus-client to be installed." ∷ "metrics:"
    ∷ "    enabled: false" ∷ "    listen_port: 8000" ∷ "" ∷ "# Manhole config." ∷ "manhole:"
    ∷ "    # Whether or not opening the manhole is allowed." ∷ "    enabled: false"
    ∷ "    # The path for the unix socket." ∷ "    path: /var/tmp/mautrix-signal.manhole"
    ∷ "    # The list of UIDs who can be added to the whitelist."
    ∷ "    # If empty, any UIDs can be specified in the open-manhole command." ∷ "    whitelist:"
    ∷ "    - 0" ∷ "" ∷ "signal:" ∷ "    # Path to signald unix socket"
    ∷ "    socket_path: /signald/signald.sock"
    ∷ "    # Directory for temp files when sending files to Signal. This should be an"
    ∷ "    # absolute path that signald can read. For attachments in the other direction,"
    ∷ "    # make sure signald is configured to use an absolute path as the data directory."
    ∷ "    outgoing_attachment_dir: /tmp"
    ∷ "    # Directory where signald stores avatars for groups."
    ∷ "    avatar_dir: ~/.config/signald/avatars"
    ∷ "    # Directory where signald stores auth data. Used to delete data when logging out."
    ∷ "    data_dir: ~/.config/signald/data"
    ∷ "    # Whether or not unknown signald accounts should be deleted when the bridge is started."
    ∷ "    # When this is enabled, any UserInUse errors should be resolved by restarting the bridge."
    ∷ "    delete_unknown_accounts_on_start: false"
    ∷ "    # Whether or not message attachments should be removed from disk after they're bridged."
    ∷ "    remove_file_after_handling: true"
    ∷ "    # Whether or not users can register a primary device" ∷ "    registration_enabled: true"
    ∷ "    # Whether or not to enable disappearing messages in groups. If enabled, then the expiration"
    ∷ "    # time of the messages will be determined by the first users to read the message, rather"
    ∷ "    # than individually. If the bridge has a single user, this can be turned on safely."
    ∷ "    enable_disappearing_messages_in_groups: false" ∷ "" ∷ []
