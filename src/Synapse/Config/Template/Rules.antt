-- ===== src/Synapse/Config/Template/Rules.antt =====
-- The statistics, the aliases and the tracing, in the text that `configMapForSynapse` of
-- controllers/synapse/synapse/synapse_configmap.go writes to homeserver.yaml.
use synapse_operator.Base.{String, List, [], ◌∷◌}

abbrev pub rule_lines : List String
rule_lines =
    "# Local statistics collection. Used in populating the room directory." ∷ "#"
    ∷ "# 'bucket_size' controls how large each statistics timeslice is. It can"
    ∷ "# be defined in a human readable short form -- e.g. \"1d\", \"1y\"." ∷ "#"
    ∷ "# 'retention' controls how long historical statistics will be kept for."
    ∷ "# It can be defined in a human readable short form -- e.g. \"1d\", \"1y\"." ∷ "#" ∷ "#"
    ∷ "#stats:" ∷ "#   enabled: true" ∷ "#   bucket_size: 1d" ∷ "#   retention: 1y" ∷ "" ∷ ""
    ∷ "# Server Notices room configuration" ∷ "#"
    ∷ "# Uncomment this section to enable a room which can be used to send notices"
    ∷ "# from the server to users. It is a special room which cannot be left; notices"
    ∷ "# come from a special \"notices\" user id." ∷ "#"
    ∷ "# If you uncomment this section, you *must* define the system_mxid_localpart"
    ∷ "# setting, which defines the id of the user which will be used to send the" ∷ "# notices."
    ∷ "#" ∷ "# It's also possible to override the room name, the display name of the"
    ∷ "# \"notices\" user, and the avatar for the user." ∷ "#" ∷ "#server_notices:"
    ∷ "#  system_mxid_localpart: notices" ∷ "#  system_mxid_display_name: \"Server Notices\""
    ∷ "#  system_mxid_avatar_url: \"mxc://server.com/oumMVlgDnLYFaPVkExemNVVZ\""
    ∷ "#  room_name: \"Server Notices\"" ∷ "" ∷ "" ∷ ""
    ∷ "# Uncomment to disable searching the public room list. When disabled"
    ∷ "# blocks searching local and remote room lists for local and remote"
    ∷ "# users by always returning an empty list for all queries." ∷ "#"
    ∷ "#enable_room_list_search: false" ∷ ""
    ∷ "# The  'alias_creation ' option controls who's allowed to create aliases"
    ∷ "# on this server." ∷ "#"
    ∷ "# The format of this option is a list of rules that contain globs that"
    ∷ "# match against user_id, room_id and the new alias (fully qualified with"
    ∷ "# server name). The action in the first rule that matches is taken,"
    ∷ "# which can currently either be \"allow\" or \"deny\"." ∷ "#"
    ∷ "# Missing user_id/room_id/alias fields default to \"*\"." ∷ "#"
    ∷ "# If no rules match the request is denied. An empty list means no one"
    ∷ "# can create aliases." ∷ "#" ∷ "# Options for the rules include:" ∷ "#"
    ∷ "#   user_id: Matches against the creator of the alias"
    ∷ "#   alias: Matches against the alias being created"
    ∷ "#   room_id: Matches against the room ID the alias is being pointed at"
    ∷ "#   action: Whether to \"allow\" or \"deny\" the request if the rule matches" ∷ "#"
    ∷ "# The default is:" ∷ "#" ∷ "#alias_creation_rules:" ∷ "#  - user_id: \"*\""
    ∷ "#    alias: \"*\"" ∷ "#    room_id: \"*\"" ∷ "#    action: allow" ∷ ""
    ∷ "# The  'room_list_publication_rules ' option controls who can publish and"
    ∷ "# which rooms can be published in the public room list." ∷ "#"
    ∷ "# The format of this option is the same as that for" ∷ "#  'alias_creation_rules '." ∷ "#"
    ∷ "# If the room has one or more aliases associated with it, only one of"
    ∷ "# the aliases needs to match the alias rule. If there are no aliases"
    ∷ "# then only rules with  'alias: * ' match." ∷ "#"
    ∷ "# If no rules match the request is denied. An empty list means no one"
    ∷ "# can publish rooms." ∷ "#" ∷ "# Options for the rules include:" ∷ "#"
    ∷ "#   user_id: Matches against the creator of the alias"
    ∷ "#   room_id: Matches against the room ID being published"
    ∷ "#   alias: Matches against any current local or canonical aliases"
    ∷ "#            associated with the room"
    ∷ "#   action: Whether to \"allow\" or \"deny\" the request if the rule matches" ∷ "#"
    ∷ "# The default is:" ∷ "#" ∷ "#room_list_publication_rules:" ∷ "#  - user_id: \"*\""
    ∷ "#    alias: \"*\"" ∷ "#    room_id: \"*\"" ∷ "#    action: allow" ∷ "" ∷ ""
    ∷ "# Server admins can define a Python module that implements extra rules for"
    ∷ "# allowing or denying incoming events. In order to work, this module needs to"
    ∷ "# override the methods defined in synapse/events/third_party_rules.py." ∷ "#"
    ∷ "# This feature is designed to be used in closed federations only, where each"
    ∷ "# participating server enforces the same rules." ∷ "#" ∷ "#third_party_event_rules:"
    ∷ "#  module: \"my_custom_project.SuperRulesSet\"" ∷ "#  config:"
    ∷ "#    example_option: 'things'" ∷ "" ∷ "" ∷ "## Opentracing ##" ∷ ""
    ∷ "# These settings enable opentracing, which implements distributed tracing."
    ∷ "# This allows you to observe the causal chains of events across servers"
    ∷ "# including requests, key lookups etc., across any server running"
    ∷ "# synapse or any other other services which supports opentracing"
    ∷ "# (specifically those implemented with Jaeger)." ∷ "#" ∷ "opentracing:"
    ∷ "    # tracing is disabled by default. Uncomment the following line to enable it." ∷ "    #"
    ∷ "    #enabled: true" ∷ ""
    ∷ "    # The list of homeservers we wish to send and receive span contexts and span baggage."
    ∷ "    # See docs/opentracing.rst"
    ∷ "    # This is a list of regexes which are matched against the server_name of the"
    ∷ "    # homeserver." ∷ "    #" ∷ "    # By default, it is empty, so no servers are matched."
    ∷ "    #" ∷ "    #homeserver_whitelist:" ∷ "    #  - \".*\"" ∷ ""
    ∷ "    # Jaeger can be configured to sample traces at different rates."
    ∷ "    # All configuration options provided by Jaeger can be set here."
    ∷ "    # Jaeger's configuration mostly related to trace sampling which"
    ∷ "    # is documented here:" ∷ "    # https://www.jaegertracing.io/docs/1.13/sampling/."
    ∷ "    #" ∷ "    #jaeger_config:" ∷ "    #  sampler:" ∷ "    #    type: const"
    ∷ "    #    param: 1" ∷ "" ∷ []
