-- ===== src/Synapse/Config/Template/Server.antt =====
-- The name of the server and its limits, in the text that `configMapForSynapse` of
-- controllers/synapse/synapse/synapse_configmap.go writes to homeserver.yaml.
use synapse_operator.Base.{String, ◌<>◌, List, [], ◌∷◌}
use synapse_operator.Api.{SynapseHomeserverValues}

unfoldable pub server_lines : SynapseHomeserverValues → List String
server_lines v =
    ""
    ∷ "# Configuration file for Synapse."
    ∷ "#"
    ∷ "# This is a YAML file: see [1] for a quick introduction. Note in particular"
    ∷ "# that *indentation is important*: all the elements of a list or dictionary"
    ∷ "# should have the same indentation."
    ∷ "#"
    ∷ "# [1] https://docs.ansible.com/ansible/latest/reference_appendices/YAMLSyntax.html"
    ∷ ""
    ∷ "## Server ##"
    ∷ ""
    ∷ "# The public-facing domain of the server"
    ∷ "#"
    ∷ "# The server_name name will appear at the end of usernames and room addresses"
    ∷ "# created on this server. For example if the server_name was example.com,"
    ∷ "# usernames on this server would be in the format @user:example.com"
    ∷ "#"
    ∷ "# In most cases you should avoid using a matrix specific subdomain such as"
    ∷ "# matrix.example.com or synapse.example.com as the server_name for the same"
    ∷ "# reasons you wouldn't use user@email.example.com as your email address."
    ∷ "# See https://github.com/matrix-org/synapse/blob/master/docs/delegate.md"
    ∷ "# for information on how to host Synapse on a subdomain while preserving"
    ∷ "# a clean server_name."
    ∷ "#"
    ∷ "# The server_name cannot be changed later so it is important to"
    ∷ "# configure this correctly before you start Synapse. It should be all"
    ∷ "# lowercase and may contain an explicit port."
    ∷ "# Examples: matrix.org, localhost:8080"
    ∷ "#"
    ∷ ("server_name: \"" <> (v.server_name <> "\""))
    ∷ ""
    ∷ "# When running as a daemon, the file to store the pid in"
    ∷ "#"
    ∷ "pid_file: /homeserver.pid"
    ∷ ""
    ∷ "# The absolute URL to the web client which /_matrix/client will redirect"
    ∷ "# to if 'webclient' is configured under the 'listeners' configuration."
    ∷ "#"
    ∷ "# This option can be also set to the filesystem path to the web client"
    ∷ "# which will be served at /_matrix/client/ if 'webclient' is configured"
    ∷ "# under the 'listeners' configuration, however this is a security risk:"
    ∷ "# https://github.com/matrix-org/synapse#security-note"
    ∷ "#"
    ∷ "#web_client_location: https://riot.example.com/"
    ∷ ""
    ∷ "# The public-facing base URL that clients use to access this HS"
    ∷ "# (not including _matrix/...). This is the same URL a user would"
    ∷ "# enter into the 'custom HS URL' field on their client. If you"
    ∷ "# use synapse with a reverse proxy, this should be the URL to reach"
    ∷ "# synapse via the proxy."
    ∷ "#"
    ∷ "#public_baseurl: https://example.com/"
    ∷ ""
    ∷ "# Set the soft limit on the number of file descriptors synapse can use"
    ∷ "# Zero is used to indicate synapse should set the soft limit to the"
    ∷ "# hard limit."
    ∷ "#"
    ∷ "#soft_file_limit: 0"
    ∷ ""
    ∷ "# Set to false to disable presence tracking on this homeserver."
    ∷ "#"
    ∷ "#use_presence: false"
    ∷ ""
    ∷ "# Whether to require authentication to retrieve profile data (avatars,"
    ∷ "# display names) of other users through the client API. Defaults to"
    ∷ "# 'false'. Note that profile data is also available via the federation"
    ∷ "# API, so this setting is of limited value if federation is enabled on"
    ∷ "# the server."
    ∷ "#"
    ∷ "#require_auth_for_profile_requests: true"
    ∷ ""
    ∷ "# Uncomment to require a user to share a room with another user in order"
    ∷ "# to retrieve their profile information. Only checked on Client-Server"
    ∷ "# requests. Profile requests from other servers should be checked by the"
    ∷ "# requesting server. Defaults to 'false'."
    ∷ "#"
    ∷ "#limit_profile_requests_to_users_who_share_rooms: true"
    ∷ ""
    ∷ "# If set to 'true', removes the need for authentication to access the server's"
    ∷ "# public rooms directory through the client API, meaning that anyone can"
    ∷ "# query the room directory. Defaults to 'false'."
    ∷ "#"
    ∷ "#allow_public_rooms_without_auth: true"
    ∷ ""
    ∷ "# If set to 'true', allows any other homeserver to fetch the server's public"
    ∷ "# rooms directory via federation. Defaults to 'false'."
    ∷ "#"
    ∷ "#allow_public_rooms_over_federation: true"
    ∷ ""
    ∷ "# The default room version for newly created rooms."
    ∷ "#"
    ∷ "# Known room versions are listed here:"
    ∷ "# https://matrix.org/docs/spec/#complete-list-of-room-versions"
    ∷ "#"
    ∷ "# For example, for room version 1, default_room_version should be set"
    ∷ "# to \"1\"."
    ∷ "#"
    ∷ "#default_room_version: \"6\""
    ∷ ""
    ∷ "# The GC threshold parameters to pass to 'gc.set_threshold ', if defined"
    ∷ "#"
    ∷ "#gc_thresholds: [700, 10, 10]"
    ∷ ""
    ∷ "# Set the limit on the returned events in the timeline in the get"
    ∷ "# and sync operations. The default value is 100. -1 means no upper limit."
    ∷ "#"
    ∷ "# Uncomment the following to increase the limit to 5000."
    ∷ "#"
    ∷ "#filter_timeline_limit: 5000"
    ∷ ""
    ∷ "# Whether room invites to users on this server should be blocked"
    ∷ "# (except those sent by local server admins). The default is False."
    ∷ "#"
    ∷ "#block_non_admin_invites: true"
    ∷ ""
    ∷ "# Room searching"
    ∷ "#"
    ∷ "# If disabled, new messages will not be indexed for searching and users"
    ∷ "# will receive errors when searching for messages. Defaults to enabled."
    ∷ "#"
    ∷ "#enable_search: false"
    ∷ ""
    ∷ []
