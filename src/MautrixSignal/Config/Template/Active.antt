-- ===== src/MautrixSignal/Config/Template/Active.antt =====
-- What the text of config.yaml sets, its comments left out.
use synapse_operator.Base.{String, ◌<>◌, ◌≡◌, refl, ap, ◌∙◌, true, List, [], ◌∷◌}
use synapse_operator.Text.Bytes.{split}
use synapse_operator.Text.Lines.{
  concat, is_active, active, kept_if, is_line, all_lines, is_active-append, is_line-append,
  split-joined,
}
use synapse_operator.Api.{MautrixSignal}
use synapse_operator.MautrixSignal.Config.Address.{synapse_address, bridge_address}
use synapse_operator.MautrixSignal.Config.Template.{config_parts, config_lines, config_yaml}
use synapse_operator.MautrixSignal.Config.Template.Services.{service_lines}
use synapse_operator.MautrixSignal.Config.Template.Users.{user_lines}

-- The settings of config.yaml for a bridge.
unfoldable pub bridge_settings : MautrixSignal → List String
bridge_settings ms =
    "homeserver:"
    ∷ ("    address: " <> synapse_address ms)
    ∷ ("    domain: " <> ms.status.server_name)
    ∷ "    verify_ssl: true"
    ∷ "    asmux: false"
    ∷ "    http_retry_count: 4"
    ∷ "    status_endpoint: null"
    ∷ "    message_send_checkpoint_endpoint: null"
    ∷ "    connection_limit: 100"
    ∷ "    async_media: false"
    ∷ "appservice:"
    ∷ ("    address: " <> bridge_address ms)
    ∷ "    tls_cert: false"
    ∷ "    tls_key: false"
    ∷ "    hostname: 0.0.0.0"
    ∷ "    port: 29328"
    ∷ "    max_body_size: 1"
    ∷ "    database: sqlite:////data/sqlite.db"
    ∷ "    database_opts:"
    ∷ "        min_size: 5"
    ∷ "        max_size: 10"
    ∷ "    id: signal"
    ∷ "    bot_username: signalbot"
    ∷ "    bot_displayname: Signal bridge bot"
    ∷ "    bot_avatar: mxc://maunium.net/wPJgTQbZOtpBFmDNkiNEMDUp"
    ∷ "    ephemeral_events: false"
    ∷ "    as_token: \"This value is generated when generating the registration\""
    ∷ "    hs_token: \"This value is generated when generating the registration\""
    ∷ "metrics:"
    ∷ "    enabled: false"
    ∷ "    listen_port: 8000"
    ∷ "manhole:"
    ∷ "    enabled: false"
    ∷ "    path: /var/tmp/mautrix-signal.manhole"
    ∷ "    whitelist:"
    ∷ "    - 0"
    ∷ "signal:"
    ∷ "    socket_path: /signald/signald.sock"
    ∷ "    outgoing_attachment_dir: /tmp"
    ∷ "    avatar_dir: ~/.config/signald/avatars"
    ∷ "    data_dir: ~/.config/signald/data"
    ∷ "    delete_unknown_accounts_on_start: false"
    ∷ "    remove_file_after_handling: true"
    ∷ "    registration_enabled: true"
    ∷ "    enable_disappearing_messages_in_groups: false"
    ∷ "bridge:"
    ∷ "    username_template: \"signal_{userid}\""
    ∷ "    displayname_template: \"{displayname} (Signal)\""
    ∷ "    contact_list_names: disallow"
    ∷ "    displayname_preference:"
    ∷ "    - full_name"
    ∷ "    - phone"
    ∷ "    autocreate_group_portal: true"
    ∷ "    autocreate_contact_portal: false"
    ∷ "    sync_with_custom_puppets: true"
    ∷ "    sync_direct_chat_list: false"
    ∷ "    double_puppet_allow_discovery: false"
    ∷ "    double_puppet_server_map:"
    ∷ "        example.com: https://example.com"
    ∷ "    login_shared_secret_map:"
    ∷ "        example.com: foo"
    ∷ "    federate_rooms: true"
    ∷ "    encryption:"
    ∷ "        allow: false"
    ∷ "        default: false"
    ∷ "        key_sharing:"
    ∷ "            allow: false"
    ∷ "            require_cross_signing: false"
    ∷ "            require_verification: true"
    ∷ "    private_chat_portal_meta: false"
    ∷ "    delivery_receipts: false"
    ∷ "    delivery_error_reports: false"
    ∷ "    message_status_events: false"
    ∷ "    resend_bridge_info: false"
    ∷ "    periodic_sync: 0"
    ∷ "    bridge_matrix_leave: true"
    ∷ "    provisioning:"
    ∷ "        enabled: true"
    ∷ "        prefix: /_matrix/provision"
    ∷ "        shared_secret: generate"
    ∷ "        segment_key: null"
    ∷ "    command_prefix: \"!signal\""
    ∷ "    management_room_text:"
    ∷ "        welcome: \"Hello, I'm a Signal bridge bot.\""
    ∷ "        welcome_connected: \"Use 'help' for help.\""
    ∷ "        welcome_unconnected: \"Use 'help' for help or 'link' to log in.\""
    ∷ "        additional_help: \"\""
    ∷ "    management_room_multiple_messages: false"
    ∷ "    permissions:"
    ∷ "        \"*\": \"relay\""
    ∷ ("        \"" <> (ms.status.server_name <> "\": \"user\""))
    ∷ ("        \"@admin:" <> (ms.status.server_name <> "\": \"admin\""))
    ∷ "    relay:"
    ∷ "        enabled: false"
    ∷ "        message_formats:"
    ∷ "            m.text: '$sender_displayname: $message'"
    ∷ "            m.notice: '$sender_displayname: $message'"
    ∷ "            m.emote: '* $sender_displayname $message'"
    ∷ "            m.file: '$sender_displayname sent a file'"
    ∷ "            m.image: '$sender_displayname sent an image'"
    ∷ "            m.audio: '$sender_displayname sent an audio file'"
    ∷ "            m.video: '$sender_displayname sent a video'"
    ∷ "            m.location: '$sender_displayname sent a location'"
    ∷ "logging:"
    ∷ "    version: 1"
    ∷ "    formatters:"
    ∷ "        colored:"
    ∷ "            (): mautrix_signal.util.ColorFormatter"
    ∷ "            format: \"[%(asctime)s] [%(levelname)s@%(name)s] %(message)s\""
    ∷ "        normal:"
    ∷ "            format: \"[%(asctime)s] [%(levelname)s@%(name)s] %(message)s\""
    ∷ "    handlers:"
    ∷ "        file:"
    ∷ "            class: logging.handlers.RotatingFileHandler"
    ∷ "            formatter: normal"
    ∷ "            filename: /data/mautrix-signal.log"
    ∷ "            maxBytes: 10485760"
    ∷ "            backupCount: 10"
    ∷ "        console:"
    ∷ "            class: logging.StreamHandler"
    ∷ "            formatter: colored"
    ∷ "    loggers:"
    ∷ "        mau:"
    ∷ "            level: DEBUG"
    ∷ "        aiohttp:"
    ∷ "            level: INFO"
    ∷ "    root:"
    ∷ "        level: DEBUG"
    ∷ "        handlers: [file, console]"
    ∷ []

config_lines-active : (ms : MautrixSignal) → active (config_lines ms) ≡ bridge_settings ms
unfolding active is_active kept_if concat config_lines config_parts bridge_settings service_lines
    user_lines
config_lines-active ms =
    let name = ms.status.server_name in
    rw
      (
        is_active-append "    address: " (synapse_address ms) refl,
        is_active-append "    address: " (bridge_address ms) refl,
        is_active-append "    domain: " name refl,
        is_active-append "        \"" (name <> "\": \"user\"") refl,
        is_active-append "        \"@admin:" (name <> "\": \"admin\"") refl,
      )
      refl

-- The three values that the bridge's config.yaml has from the MautrixSignal have no line feed.
abbrev pub HasPlainNames : MautrixSignal → Type 0
HasPlainNames ms =
    (is_line (synapse_address ms) ≡ true)
    × (is_line (bridge_address ms) ≡ true)
    × (is_line ms.status.server_name ≡ true)

config_lines-all_lines :
    (ms : MautrixSignal) → HasPlainNames ms → all_lines (config_lines ms) ≡ true
unfolding all_lines is_line concat config_lines config_parts service_lines user_lines
config_lines-all_lines ms (synapse_plain, bridge_plain, name_plain) =
    let name = ms.status.server_name in
    rw
      (
        is_line-append "    address: " (synapse_address ms) refl synapse_plain,
        is_line-append "    address: " (bridge_address ms) refl bridge_plain,
        is_line-append "    domain: " name refl name_plain,
        is_line-append "        \"" (name <> "\": \"user\"") refl
            (is_line-append name "\": \"user\"" name_plain refl),
        is_line-append "        \"@admin:" (name <> "\": \"admin\"") refl
            (is_line-append name "\": \"admin\"" name_plain refl),
      )
      refl

split-config_yaml :
    (ms : MautrixSignal) → HasPlainNames ms → split 10 (config_yaml ms) ≡ config_lines ms
unfolding config_yaml config_lines config_parts service_lines concat
split-config_yaml ms h = split-joined _ _ (config_lines-all_lines ms h)

-- When neither the addresses of the Synapse and of the bridge nor the server name have a line feed,
-- the lines of the config.yaml that the operator writes that are neither blank nor comments are the
-- settings listed: the homeserver section has the Synapse's address and the server name as domain,
-- the appservice section the bridge's address, the permissions name the server's users and its admin,
-- and all else is the same for every bridge.
pub config_yaml-settings :
    (ms : MautrixSignal)
    → HasPlainNames ms
    → active (split 10 (config_yaml ms)) ≡ bridge_settings ms
config_yaml-settings ms h = ap active (split-config_yaml ms h) ∙ config_lines-active ms
