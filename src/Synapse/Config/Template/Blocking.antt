-- ===== src/Synapse/Config/Template/Blocking.antt =====
-- The blocking of the homeserver and of rooms, in the text that `configMapForSynapse` of
-- controllers/synapse/synapse/synapse_configmap.go writes to homeserver.yaml.
use synapse_operator.Base.{String, List, [], ◌∷◌}

abbrev pub blocking_lines : List String
blocking_lines =
    "  # Forward extremities can build up in a room due to networking delays between"
    ∷ "# homeservers. Once this happens in a large room, calculation of the state of"
    ∷ "# that room can become quite expensive. To mitigate this, once the number of"
    ∷ "# forward extremities reaches a given threshold, Synapse will send an"
    ∷ "# org.matrix.dummy_event event, which will reduce the forward extremities" ∷ "# in the room."
    ∷ "#" ∷ "# This setting defines the threshold (i.e. number of forward extremities in the"
    ∷ "# room) at which dummy events are sent. The default value is 10." ∷ "#"
    ∷ "#dummy_events_threshold: 5" ∷ "" ∷ "" ∷ "## Homeserver blocking ##" ∷ ""
    ∷ "# How to reach the server admin, used in ResourceLimitError" ∷ "#"
    ∷ "#admin_contact: 'mailto:admin@server.com'" ∷ "" ∷ "# Global blocking" ∷ "#"
    ∷ "#hs_disabled: false"
    ∷ "#hs_disabled_message: 'Human readable reason for why the HS is blocked'" ∷ ""
    ∷ "# Monthly Active User Blocking" ∷ "#"
    ∷ "# Used in cases where the admin or server owner wants to limit to the"
    ∷ "# number of monthly active users." ∷ "#"
    ∷ "# 'limit_usage_by_mau' disables/enables monthly active user blocking. When"
    ∷ "# enabled and a limit is reached the server returns a 'ResourceLimitError'"
    ∷ "# with error type Codes.RESOURCE_LIMIT_EXCEEDED" ∷ "#"
    ∷ "# 'max_mau_value' is the hard limit of monthly active users above which"
    ∷ "# the server will start blocking user actions." ∷ "#"
    ∷ "# 'mau_trial_days' is a means to add a grace period for active users. It"
    ∷ "# means that users must be active for this number of days before they"
    ∷ "# can be considered active and guards against the case where lots of users"
    ∷ "# sign up in a short space of time never to return after their initial" ∷ "# session." ∷ "#"
    ∷ "# 'mau_limit_alerting' is a means of limiting client side alerting"
    ∷ "# should the mau limit be reached. This is useful for small instances"
    ∷ "# where the admin has 5 mau seats (say) for 5 specific people and no"
    ∷ "# interest increasing the mau limit further. Defaults to True, which"
    ∷ "# means that alerting is enabled" ∷ "#" ∷ "#limit_usage_by_mau: false" ∷ "#max_mau_value: 50"
    ∷ "#mau_trial_days: 2" ∷ "#mau_limit_alerting: false" ∷ ""
    ∷ "# If enabled, the metrics for the number of monthly active users will"
    ∷ "# be populated, however no one will be limited. If limit_usage_by_mau"
    ∷ "# is true, this is implied to be true." ∷ "#" ∷ "#mau_stats_only: false" ∷ ""
    ∷ "# Sometimes the server admin will want to ensure certain accounts are"
    ∷ "# never blocked by mau checking. These accounts are specified here." ∷ "#"
    ∷ "#mau_limit_reserved_threepids:" ∷ "#  - medium: 'email'"
    ∷ "#    address: 'reserved_user@example.com'" ∷ ""
    ∷ "# Used by phonehome stats to group together related servers." ∷ "#server_context: context"
    ∷ "" ∷ "# Resource-constrained homeserver settings" ∷ "#"
    ∷ "# When this is enabled, the room \"complexity\" will be checked before a user"
    ∷ "# joins a new remote room. If it is above the complexity limit, the server will"
    ∷ "# disallow joining, or will instantly leave." ∷ "#"
    ∷ "# Room complexity is an arbitrary measure based on factors such as the number of"
    ∷ "# users in the room." ∷ "#" ∷ "limit_remote_rooms:"
    ∷ "  # Uncomment to enable room complexity checking." ∷ "  #" ∷ "  #enabled: true" ∷ ""
    ∷ "  # the limit above which rooms cannot be joined. The default is 1.0." ∷ "  #"
    ∷ "  #complexity: 0.5" ∷ ""
    ∷ "  # override the error which is returned when the room is too complex." ∷ "  #"
    ∷ "  #complexity_error: \"This room is too complex.\"" ∷ ""
    ∷ "  # allow server admins to join complex rooms. Default is false." ∷ "  #"
    ∷ "  #admins_can_join: true" ∷ ""
    ∷ "  # Whether to require a user to be in the room to add an alias to it."
    ∷ "# Defaults to 'true'." ∷ "#" ∷ "#require_membership_for_aliases: false" ∷ ""
    ∷ "# Whether to allow per-room membership profiles through the send of membership"
    ∷ "# events with profile information that differ from the target's global profile."
    ∷ "# Defaults to 'true'." ∷ "#" ∷ "#allow_per_room_profiles: false" ∷ ""
    ∷ "# How long to keep redacted events in unredacted form in the database. After"
    ∷ "# this period redacted events get replaced with their redacted form in the DB." ∷ "#"
    ∷ "# Defaults to  '7d '. Set to  'null ' to disable." ∷ "#" ∷ "#redaction_retention_period: 28d"
    ∷ "" ∷ "# How long to track users' last seen time and IPs in the database." ∷ "#"
    ∷ "# Defaults to  '28d '. Set to  'null ' to disable clearing out of old rows." ∷ "#"
    ∷ "#user_ips_max_age: 14d" ∷ "" ∷ []
