-- ===== src/MautrixSignal/Config/Template/Users.antt =====
-- The provisioning, the permissions, the relay and the log, in the text that `configMapForMautrixSignal` of
-- controllers/synapse/mautrixsignal/mautrixsignal_configmap.go writes to config.yaml.
use synapse_operator.Base.{String, ◌<>◌, List, [], ◌∷◌}
use synapse_operator.Api.{MautrixSignal}

unfoldable pub user_lines : MautrixSignal → List String
user_lines ms =
    ""
    ∷ "    # The prefix for commands. Only required in non-management rooms."
    ∷ "    command_prefix: \"!signal\""
    ∷ ""
    ∷ "    # Messages sent upon joining a management room."
    ∷ "    # Markdown is supported. The defaults are listed below."
    ∷ "    management_room_text:"
    ∷ "        # Sent when joining a room."
    ∷ "        welcome: \"Hello, I'm a Signal bridge bot.\""
    ∷ "        # Sent when joining a management room and the user is already logged in."
    ∷ "        welcome_connected: \"Use 'help' for help.\""
    ∷ "        # Sent when joining a management room and the user is not logged in."
    ∷ "        welcome_unconnected: \"Use 'help' for help or 'link' to log in.\""
    ∷ "        # Optional extra text sent when joining a management room."
    ∷ "        additional_help: \"\""
    ∷ ""
    ∷ "    # Send each message separately (for readability in some clients)"
    ∷ "    management_room_multiple_messages: false"
    ∷ ""
    ∷ "    # Permissions for using the bridge."
    ∷ "    # Permitted values:"
    ∷ "    #      relay - Allowed to be relayed through the bridge, no access to commands."
    ∷ "    #       user - Use the bridge with puppeting."
    ∷ "    #      admin - Use and administrate the bridge."
    ∷ "    # Permitted keys:"
    ∷ "    #        * - All Matrix users"
    ∷ "    #   domain - All users on that homeserver"
    ∷ "    #     mxid - Specific user"
    ∷ "    permissions:"
    ∷ "        \"*\": \"relay\""
    ∷ ("        \"" <> (ms.status.server_name <> "\": \"user\""))
    ∷ ("        \"@admin:" <> (ms.status.server_name <> "\": \"admin\""))
    ∷ ""
    ∷ "    relay:"
    ∷ "        # Whether relay mode should be allowed. If allowed, '!signal set-relay' can be used to turn any"
    ∷ "        # authenticated user into a relaybot for that chat."
    ∷ "        enabled: false"
    ∷ "        # The formats to use when sending messages to Signal via a relay user."
    ∷ "        #"
    ∷ "        # Available variables:"
    ∷ "        #   $sender_displayname - The display name of the sender (e.g. Example User)"
    ∷ "        #   $sender_username    - The username (Matrix ID localpart) of the sender (e.g. exampleuser)"
    ∷ "        #   $sender_mxid        - The Matrix ID of the sender (e.g. @exampleuser:example.com)"
    ∷ "        #   $message            - The message content"
    ∷ "        message_formats:"
    ∷ "            m.text: '$sender_displayname: $message'"
    ∷ "            m.notice: '$sender_displayname: $message'"
    ∷ "            m.emote: '* $sender_displayname $message'"
    ∷ "            m.file: '$sender_displayname sent a file'"
    ∷ "            m.image: '$sender_displayname sent an image'"
    ∷ "            m.audio: '$sender_displayname sent an audio file'"
    ∷ "            m.video: '$sender_displayname sent a video'"
    ∷ "            m.location: '$sender_displayname sent a location'"
    ∷ ""
    ∷ "# Python logging configuration."
    ∷ "#"
    ∷ "# See section 16.7.2 of the Python documentation for more info:"
    ∷ "# https://docs.python.org/3.6/library/logging.config.html#configuration-dictionary-schema"
    ∷ "logging:"
    ∷ "    version: 1"
    ∷ "    formatters:"
    ∷ "        colored:"
    ∷ "            (): mautrix_signal.util.ColorFormatter"
    ∷ "            format: \"[%(asctime)s] [%(levelname)s@%(name)s] %(message)s\""
    ∷ "        normal:"
    ∷ "            format: \"[%(asctime)s] [%(levelname)s@%(name)s] %(message)s\""
    ∷ "    handlers:"
    ∷ "        file:"
    ∷ "            class: logging.handlers.RotatingFileHandler"
    ∷ "            formatter: normal"
    ∷ "            filename: /data/mautrix-signal.log"
    ∷ "            maxBytes: 10485760"
    ∷ "            backupCount: 10"
    ∷ "        console:"
    ∷ "            class: logging.StreamHandler"
    ∷ "            formatter: colored"
    ∷ "    loggers:"
    ∷ "        mau:"
    ∷ "            level: DEBUG"
    ∷ "        aiohttp:"
    ∷ "            level: INFO"
    ∷ "    root:"
    ∷ "        level: DEBUG"
    ∷ "        handlers: [file, console]"
    ∷ ""
    ∷ []
