-- ===== src/MautrixSignal/Config/Template/Bridge.antt =====
-- The portals and their encryption, in the text that `configMapForMautrixSignal` of
-- controllers/synapse/mautrixsignal/mautrixsignal_configmap.go writes to config.yaml.
use synapse_operator.Base.{String, List, [], ◌∷◌}

abbrev pub bridge_lines : List String
bridge_lines =
    "# Bridge config" ∷ "bridge:" ∷ "    # Localpart template of MXIDs for Signal users."
    ∷ "    # {userid} is replaced with an identifier for the Signal user."
    ∷ "    username_template: \"signal_{userid}\"" ∷ "    # Displayname template for Signal users."
    ∷ "    # {displayname} is replaced with the displayname of the Signal user, which is the first"
    ∷ "    # available variable in displayname_preference. The variables in displayname_preference"
    ∷ "    # can also be used here directly."
    ∷ "    displayname_template: \"{displayname} (Signal)\""
    ∷ "    # Whether or not contact list displaynames should be used."
    ∷ "    # Possible values: disallow, allow, prefer" ∷ "    #"
    ∷ "    # Multi-user instances are recommended to disallow contact list names, as otherwise there can"
    ∷ "    # be conflicts between names from different users' contact lists."
    ∷ "    contact_list_names: disallow"
    ∷ "    # Available variables: full_name, first_name, last_name, phone, uuid"
    ∷ "    displayname_preference:" ∷ "    - full_name" ∷ "    - phone" ∷ ""
    ∷ "    # Whether or not to create portals for all groups on login/connect."
    ∷ "    autocreate_group_portal: true"
    ∷ "    # Whether or not to create portals for all contacts on login/connect."
    ∷ "    autocreate_contact_portal: false"
    ∷ "    # Whether or not to use /sync to get read receipts and typing notifications"
    ∷ "    # when double puppeting is enabled" ∷ "    sync_with_custom_puppets: true"
    ∷ "    # Whether or not to update the m.direct account data event when double puppeting is enabled."
    ∷ "    # Note that updating the m.direct event is not atomic (except with mautrix-asmux)"
    ∷ "    # and is therefore prone to race conditions." ∷ "    sync_direct_chat_list: false"
    ∷ "    # Allow using double puppeting from any server with a valid client .well-known file."
    ∷ "    double_puppet_allow_discovery: false"
    ∷ "    # Servers to allow double puppeting from, even if double_puppet_allow_discovery is false."
    ∷ "    double_puppet_server_map:" ∷ "        example.com: https://example.com"
    ∷ "    # Shared secret for https://github.com/devture/matrix-synapse-shared-secret-auth"
    ∷ "    #" ∷ "    # If set, custom puppets will be enabled automatically for local users"
    ∷ "    # instead of users having to find an access token and run 'login-matrix'"
    ∷ "    # manually." ∷ "    # If using this for other servers than the bridge's server,"
    ∷ "    # you must also set the URL in the double_puppet_server_map."
    ∷ "    login_shared_secret_map:" ∷ "        example.com: foo"
    ∷ "    # Whether or not created rooms should have federation enabled."
    ∷ "    # If false, created portal rooms will never be federated." ∷ "    federate_rooms: true"
    ∷ "    # End-to-bridge encryption support options." ∷ "    #"
    ∷ "    # See https://docs.mau.fi/bridges/general/end-to-bridge-encryption.html for more info."
    ∷ "    encryption:" ∷ "        # Allow encryption, work in group chat rooms with e2ee enabled"
    ∷ "        allow: false"
    ∷ "        # Default to encryption, force-enable encryption in all portals the bridge creates"
    ∷ "        # This will cause the bridge bot to be in private chats for the encryption to work properly."
    ∷ "        default: false" ∷ "        # Options for automatic key sharing."
    ∷ "        key_sharing:"
    ∷ "            # Enable key sharing? If enabled, key requests for rooms where users are in will be fulfilled."
    ∷ "            # You must use a client that supports requesting keys from other users to use this feature."
    ∷ "            allow: false"
    ∷ "            # Require the requesting device to have a valid cross-signing signature?"
    ∷ "            # This doesn't require that the bridge has verified the device, only that the user has verified it."
    ∷ "            # Not yet implemented." ∷ "            require_cross_signing: false"
    ∷ "            # Require devices to be verified by the bridge?"
    ∷ "            # Verification by the bridge is not yet implemented."
    ∷ "            require_verification: true"
    ∷ "    # Whether or not to explicitly set the avatar and room name for private"
    ∷ "    # chat portal rooms. This will be implicitly enabled if encryption.default is true."
    ∷ "    private_chat_portal_meta: false"
    ∷ "    # Whether or not the bridge should send a read receipt from the bridge bot when a message has"
    ∷ "    # been sent to Signal. This let's you check manually whether the bridge is receiving your"
    ∷ "    # messages." ∷ "    # Note that this is not related to Signal delivery receipts."
    ∷ "    delivery_receipts: false"
    ∷ "    # Whether or not delivery errors should be reported as messages in the Matrix room. (not yet implemented)"
    ∷ "    delivery_error_reports: false"
    ∷ "    # Whether the bridge should send the message status as a custom com.beeper.message_send_status event."
    ∷ "    message_status_events: false"
    ∷ "    # Set this to true to tell the bridge to re-send m.bridge events to all rooms on the next run."
    ∷ "    # This field will automatically be changed back to false after it,"
    ∷ "    # except if the config file is not writable." ∷ "    resend_bridge_info: false"
    ∷ "    # Interval at which to resync contacts (in seconds)." ∷ "    periodic_sync: 0"
    ∷ "    # Should leaving the room on Matrix make the user leave on Signal?"
    ∷ "    bridge_matrix_leave: true" ∷ ""
    ∷ "    # Provisioning API part of the web server for automated portal creation and fetching information."
    ∷ "    # Used by things like mautrix-manager (https://github.com/tulir/mautrix-manager)."
    ∷ "    provisioning:" ∷ "        # Whether or not the provisioning API should be enabled."
    ∷ "        enabled: true" ∷ "        # The prefix to use in the provisioning API endpoints."
    ∷ "        prefix: /_matrix/provision"
    ∷ "        # The shared secret to authorize users of the API."
    ∷ "        # Set to \"generate\" to generate and save a new token."
    ∷ "        shared_secret: generate"
    ∷ "        # Segment API key to enable analytics tracking for web server"
    ∷ "        # endpoints. Set to null to disable."
    ∷ "        # Currently the only events are login start, QR code scan, and login"
    ∷ "        # success/failure." ∷ "        segment_key: null" ∷ []
