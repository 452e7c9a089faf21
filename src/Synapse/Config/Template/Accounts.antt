-- ===== src/Synapse/Config/Template/Accounts.antt =====
-- The delegates and the rooms of new accounts, in the text that `configMapForSynapse` of
-- controllers/synapse/synapse/synapse_configmap.go writes to homeserver.yaml.
use synapse_operator.Base.{String, List, [], ◌∷◌}

abbrev pub account_lines : List String
account_lines =
    "# Handle threepid (email/phone etc) registration and password resets through a set of"
    ∷ "# *trusted* identity servers. Note that this allows the configured identity server to"
    ∷ "# reset passwords for accounts!" ∷ "#"
    ∷ "# Be aware that if  'email ' is not set, and SMTP options have not been"
    ∷ "# configured in the email config block, registration and user password resets via"
    ∷ "# email will be globally disabled." ∷ "#"
    ∷ "# Additionally, if  'msisdn ' is not set, registration and password resets via msisdn"
    ∷ "# will be disabled regardless, and users will not be able to associate an msisdn"
    ∷ "# identifier to their account. This is due to Synapse currently not supporting"
    ∷ "# any method of sending SMS messages on its own." ∷ "#"
    ∷ "# To enable using an identity server for operations regarding a particular third-party"
    ∷ "# identifier type, set the value to the URL of that identity server as shown in the"
    ∷ "# examples below." ∷ "#"
    ∷ "# Servers handling the these requests must answer the  '/requestToken ' endpoints defined"
    ∷ "# by the Matrix Identity Service API specification:"
    ∷ "# https://matrix.org/docs/spec/identity_service/latest" ∷ "#"
    ∷ "# If a delegate is specified, the config option public_baseurl must also be filled out."
    ∷ "#" ∷ "account_threepid_delegates:"
    ∷ "    #email: https://example.com     # Delegate email sending to example.com"
    ∷ "    #msisdn: http://localhost:8090  # Delegate SMS sending to this local process" ∷ ""
    ∷ "    # Whether users are allowed to change their displayname after it has"
    ∷ "# been initially set. Useful when provisioning users based on the"
    ∷ "# contents of a third-party directory." ∷ "#"
    ∷ "# Does not apply to server administrators. Defaults to 'true'" ∷ "#"
    ∷ "#enable_set_displayname: false" ∷ ""
    ∷ "# Whether users are allowed to change their avatar after it has been"
    ∷ "# initially set. Useful when provisioning users based on the contents"
    ∷ "# of a third-party directory." ∷ "#"
    ∷ "# Does not apply to server administrators. Defaults to 'true'" ∷ "#"
    ∷ "#enable_set_avatar_url: false" ∷ ""
    ∷ "# Whether users can change the 3PIDs associated with their accounts"
    ∷ "# (email address and msisdn)." ∷ "#" ∷ "# Defaults to 'true'" ∷ "#"
    ∷ "#enable_3pid_changes: false" ∷ ""
    ∷ "# Users who register on this homeserver will automatically be joined" ∷ "# to these rooms."
    ∷ "#" ∷ "# By default, any room aliases included in this list will be created"
    ∷ "# as a publicly joinable room when the first user registers for the"
    ∷ "# homeserver. This behaviour can be customised with the settings below." ∷ "#"
    ∷ "#auto_join_rooms:" ∷ "#  - \"#example:example.com\"" ∷ ""
    ∷ "# Where auto_join_rooms are specified, setting this flag ensures that the"
    ∷ "# the rooms exist by creating them when the first user on the" ∷ "# homeserver registers."
    ∷ "#" ∷ "# By default the auto-created rooms are publicly joinable from any federated"
    ∷ "# server. Use the autocreate_auto_join_rooms_federated and"
    ∷ "# autocreate_auto_join_room_preset settings below to customise this behaviour." ∷ "#"
    ∷ "# Setting to false means that if the rooms are not manually created,"
    ∷ "# users cannot be auto-joined since they do not exist." ∷ "#"
    ∷ "# Defaults to true. Uncomment the following line to disable automatically"
    ∷ "# creating auto-join rooms." ∷ "#" ∷ "#autocreate_auto_join_rooms: false" ∷ ""
    ∷ "# Whether the auto_join_rooms that are auto-created are available via"
    ∷ "# federation. Only has an effect if autocreate_auto_join_rooms is true." ∷ "#"
    ∷ "# Note that whether a room is federated cannot be modified after" ∷ "# creation." ∷ "#"
    ∷ "# Defaults to true: the room will be joinable from other servers."
    ∷ "# Uncomment the following to prevent users from other homeservers from"
    ∷ "# joining these rooms." ∷ "#" ∷ "#autocreate_auto_join_rooms_federated: false" ∷ ""
    ∷ "# The room preset to use when auto-creating one of auto_join_rooms. Only has an"
    ∷ "# effect if autocreate_auto_join_rooms is true." ∷ "#"
    ∷ "# This can be one of \"public_chat\", \"private_chat\", or \"trusted_private_chat\"."
    ∷ "# If a value of \"private_chat\" or \"trusted_private_chat\" is used then"
    ∷ "# auto_join_mxid_localpart must also be configured." ∷ "#"
    ∷ "# Defaults to \"public_chat\", meaning that the room is joinable by anyone, including"
    ∷ "# federated servers if autocreate_auto_join_rooms_federated is true (the default)."
    ∷ "# Uncomment the following to require an invitation to join these rooms." ∷ "#"
    ∷ "#autocreate_auto_join_room_preset: private_chat" ∷ ""
    ∷ "# The local part of the user id which is used to create auto_join_rooms if"
    ∷ "# autocreate_auto_join_rooms is true. If this is not provided then the"
    ∷ "# initial user account that registers will be used to create the rooms." ∷ "#"
    ∷ "# The user id is also used to invite new users to any auto-join rooms which"
    ∷ "# are set to invite-only." ∷ "#"
    ∷ "# It *must* be configured if autocreate_auto_join_room_preset is set to"
    ∷ "# \"private_chat\" or \"trusted_private_chat\"." ∷ "#"
    ∷ "# Note that this must be specified in order for new users to be correctly"
    ∷ "# invited to any auto-join rooms which have been set to invite-only (either"
    ∷ "# at the time of creation or subsequently)." ∷ "#"
    ∷ "# Note that, if the room already exists, this user must be joined and"
    ∷ "# have the appropriate permissions to invite new members." ∷ "#"
    ∷ "#auto_join_mxid_localpart: system" ∷ ""
    ∷ "# When auto_join_rooms is specified, setting this flag to false prevents"
    ∷ "# guest accounts from being automatically joined to the rooms." ∷ "#" ∷ "# Defaults to true."
    ∷ "#" ∷ "#auto_join_rooms_for_guests: false" ∷ "" ∷ "" ∷ []
