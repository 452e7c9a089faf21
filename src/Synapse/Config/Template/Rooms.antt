-- ===== src/Synapse/Config/Template/Rooms.antt =====
-- The pushes and the rooms, in the text that `configMapForSynapse` of
-- controllers/synapse/synapse/synapse_configmap.go writes to homeserver.yaml.
use synapse_operator.Base.{String, List, [], ◌∷◌}

abbrev pub room_lines : List String
room_lines =
    "## Push ##" ∷ "" ∷ "push:"
    ∷ "  # Clients requesting push notifications can either have the body of"
    ∷ "  # the message sent in the notification poke along with other details"
    ∷ "  # like the sender, or just the event ID and room ID ( 'event_id_only ')."
    ∷ "  # If clients choose the former, this option controls whether the"
    ∷ "  # notification request includes the content of the event (other details"
    ∷ "  # like the sender are still included). For  'event_id_only ' push, it"
    ∷ "  # has no effect." ∷ "  #"
    ∷ "  # For modern android devices the notification content will still appear"
    ∷ "  # because it is loaded by the app. iPhone, however will send a"
    ∷ "  # notification saying only that a message arrived and who it came from." ∷ "  #"
    ∷ "  # The default value is \"true\" to include message details. Uncomment to only"
    ∷ "  # include the event ID and room ID in push notification payloads." ∷ "  #"
    ∷ "  #include_content: false" ∷ ""
    ∷ "  # When a push notification is received, an unread count is also sent."
    ∷ "  # This number can either be calculated as the number of unread messages"
    ∷ "  # for the user, or the number of *rooms* the user has unread messages in." ∷ "  #"
    ∷ "  # The default value is \"true\", meaning push clients will see the number of"
    ∷ "  # rooms with unread messages in them. Uncomment to instead send the number"
    ∷ "  # of unread messages." ∷ "  #" ∷ "  #group_unread_count_by_room: false" ∷ "" ∷ ""
    ∷ "  # Spam checkers are third-party modules that can block specific actions"
    ∷ "# of local users, such as creating rooms and registering undesirable"
    ∷ "# usernames, as well as remote users by redacting incoming events." ∷ "#" ∷ "spam_checker:"
    ∷ "   #- module: \"my_custom_project.SuperSpamChecker\"" ∷ "   #  config:"
    ∷ "   #    example_option: 'things'" ∷ "   #- module: \"some_other_project.BadEventStopper\""
    ∷ "   #  config:" ∷ "   #    example_stop_events_from: ['@bad:example.com']" ∷ "" ∷ ""
    ∷ "   ## Rooms ##" ∷ ""
    ∷ "# Controls whether locally-created rooms should be end-to-end encrypted by" ∷ "# default."
    ∷ "#" ∷ "# Possible options are \"all\", \"invite\", and \"off\". They are defined as:" ∷ "#"
    ∷ "# * \"all\": any locally-created room"
    ∷ "# * \"invite\": any room created with the \"private_chat\" or \"trusted_private_chat\""
    ∷ "#             room creation presets" ∷ "# * \"off\": this option will take no effect" ∷ "#"
    ∷ "# The default value is \"off\"." ∷ "#"
    ∷ "# Note that this option will only affect rooms created after it is set. It"
    ∷ "# will also not affect rooms created by other servers." ∷ "#"
    ∷ "#encryption_enabled_by_default_for_room_type: invite" ∷ "" ∷ ""
    ∷ "# Uncomment to allow non-server-admin users to create groups on this server" ∷ "#"
    ∷ "#enable_group_creation: true" ∷ ""
    ∷ "# If enabled, non server admins can only create groups with local parts"
    ∷ "# starting with this prefix" ∷ "#" ∷ "#group_creation_prefix: \"unofficial_\"" ∷ "" ∷ "" ∷ ""
    ∷ "# User Directory configuration" ∷ "#"
    ∷ "# 'enabled' defines whether users can search the user directory. If"
    ∷ "# false then empty responses are returned to all queries. Defaults to" ∷ "# true." ∷ "#"
    ∷ "# 'search_all_users' defines whether to search all users visible to your HS"
    ∷ "# when searching the user directory, rather than limiting to users visible"
    ∷ "# in public rooms.  Defaults to false.  If you set it True, you'll have to"
    ∷ "# rebuild the user_directory search indexes, see"
    ∷ "# https://github.com/matrix-org/synapse/blob/master/docs/user_directory.md" ∷ "#"
    ∷ "#user_directory:" ∷ "#  enabled: true" ∷ "#  search_all_users: false" ∷ "" ∷ ""
    ∷ "# User Consent configuration" ∷ "#" ∷ "# for detailed instructions, see"
    ∷ "# https://github.com/matrix-org/synapse/blob/master/docs/consent_tracking.md" ∷ "#"
    ∷ "# Parts of this section are required if enabling the 'consent' resource under"
    ∷ "# 'listeners', in particular 'template_dir' and 'version'." ∷ "#"
    ∷ "# 'template_dir' gives the location of the templates for the HTML forms."
    ∷ "# This directory should contain one subdirectory per language (eg, 'en', 'fr'),"
    ∷ "# and each language directory should contain the policy document (named as"
    ∷ "# '<version>.html') and a success page (success.html)." ∷ "#"
    ∷ "# 'version' specifies the 'current' version of the policy document. It defines"
    ∷ "# the version to be served by the consent resource if there is no 'v'" ∷ "# parameter." ∷ "#"
    ∷ "# 'server_notice_content', if enabled, will send a user a \"Server Notice\""
    ∷ "# asking them to consent to the privacy policy. The 'server_notices' section"
    ∷ "# must also be configured for this to work. Notices will *not* be sent to"
    ∷ "# guest users unless 'send_server_notice_to_guests' is set to true." ∷ "#"
    ∷ "# 'block_events_error', if set, will block any attempts to send events"
    ∷ "# until the user consents to the privacy policy. The value of the setting is"
    ∷ "# used as the text of the error." ∷ "#"
    ∷ "# 'require_at_registration', if enabled, will add a step to the registration"
    ∷ "# process, similar to how captcha works. Users will be required to accept the"
    ∷ "# policy before their account is created." ∷ "#"
    ∷ "# 'policy_name' is the display name of the policy users will see when registering"
    ∷ "# for an account. Has no effect unless  'require_at_registration ' is enabled."
    ∷ "# Defaults to \"Privacy Policy\"." ∷ "#" ∷ "#user_consent:"
    ∷ "#  template_dir: res/templates/privacy" ∷ "#  version: 1.0" ∷ "#  server_notice_content:"
    ∷ "#    msgtype: m.text" ∷ "#    body: >-"
    ∷ "#      To continue using this homeserver you must review and agree to the"
    ∷ "#      terms and conditions at %(consent_uri)s" ∷ "#  send_server_notice_to_guests: true"
    ∷ "#  block_events_error: >-"
    ∷ "#    To continue using this homeserver you must review and agree to the"
    ∷ "#    terms and conditions at %(consent_uri)s" ∷ "#  require_at_registration: false"
    ∷ "#  policy_name: Privacy Policy" ∷ "#" ∷ "" ∷ "" ∷ "" ∷ []
