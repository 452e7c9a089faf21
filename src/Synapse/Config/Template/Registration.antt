-- ===== src/Synapse/Config/Template/Registration.antt =====
-- The registration of users, in the text that `configMapForSynapse` of
-- controllers/synapse/synapse/synapse_configmap.go writes to homeserver.yaml.
use synapse_operator.Base.{String, List, [], ◌∷◌}

abbrev pub registration_lines : List String
registration_lines =
    "## Registration ##" ∷ "#"
    ∷ "# Registration can be rate-limited using the parameters in the \"Ratelimiting\""
    ∷ "# section of this file." ∷ "" ∷ "# Enable registration for new users." ∷ "#"
    ∷ "#enable_registration: true" ∷ ""
    ∷ "# Optional account validity configuration. This allows for accounts to be denied"
    ∷ "# any request after a given period." ∷ "#"
    ∷ "# Once this feature is enabled, Synapse will look for registered users without an"
    ∷ "# expiration date at startup and will add one to every account it found using the"
    ∷ "# current settings at that time."
    ∷ "# This means that, if a validity period is set, and Synapse is restarted (it will"
    ∷ "# then derive an expiration date from the current validity period), and some time"
    ∷ "# after that the validity period changes and Synapse is restarted, the users'"
    ∷ "# expiration dates won't be updated unless their account is manually renewed. This"
    ∷ "# date will be randomly selected within a range [now + period - d ; now + period],"
    ∷ "# where d is equal to 10% of the validity period." ∷ "#" ∷ "account_validity:"
    ∷ "  # The account validity feature is disabled by default. Uncomment the"
    ∷ "  # following line to enable it." ∷ "  #" ∷ "  #enabled: true" ∷ ""
    ∷ "  # The period after which an account is valid after its registration. When"
    ∷ "  # renewing the account, its validity period will be extended by this amount"
    ∷ "  # of time. This parameter is required when using the account validity" ∷ "  # feature."
    ∷ "  #" ∷ "  #period: 6w" ∷ ""
    ∷ "  # The amount of time before an account's expiry date at which Synapse will"
    ∷ "  # send an email to the account's email address with a renewal link. By"
    ∷ "  # default, no such emails are sent." ∷ "  #"
    ∷ "  # If you enable this setting, you will also need to fill out the 'email' and"
    ∷ "  # 'public_baseurl' configuration sections." ∷ "  #" ∷ "  #renew_at: 1w" ∷ ""
    ∷ "  # The subject of the email sent out with the renewal link. '%(app)s' can be"
    ∷ "  # used as a placeholder for the 'app_name' parameter from the 'email'" ∷ "  # section."
    ∷ "  #" ∷ "  # Note that the placeholder must be written '%(app)s', including the"
    ∷ "  # trailing 's'." ∷ "  #" ∷ "  # If this is not set, a default value is used." ∷ "  #"
    ∷ "  #renew_email_subject: \"Renew your %(app)s account\"" ∷ ""
    ∷ "  # Directory in which Synapse will try to find templates for the HTML files to"
    ∷ "  # serve to the user when trying to renew an account. If not set, default"
    ∷ "  # templates from within the Synapse package will be used." ∷ "  #"
    ∷ "  #template_dir: \"res/templates\"" ∷ ""
    ∷ "  # File within 'template_dir' giving the HTML to be displayed to the user after"
    ∷ "  # they successfully renewed their account. If not set, default text is used." ∷ "  #"
    ∷ "  #account_renewed_html_path: \"account_renewed.html\"" ∷ ""
    ∷ "  # File within 'template_dir' giving the HTML to be displayed when the user"
    ∷ "  # tries to renew an account with an invalid renewal token. If not set,"
    ∷ "  # default text is used." ∷ "  #" ∷ "  #invalid_token_html_path: \"invalid_token.html\""
    ∷ "" ∷ "  # Time that a user's session remains valid for, after they log in." ∷ "#"
    ∷ "# Note that this is not currently compatible with guest logins." ∷ "#"
    ∷ "# Note also that this is calculated at login time: changes are not applied"
    ∷ "# retrospectively to users who have already logged in." ∷ "#"
    ∷ "# By default, this is infinite." ∷ "#" ∷ "#session_lifetime: 24h" ∷ ""
    ∷ "# The user must provide all of the below types of 3PID when registering." ∷ "#"
    ∷ "#registrations_require_3pid:" ∷ "#  - email" ∷ "#  - msisdn" ∷ ""
    ∷ "# Explicitly disable asking for MSISDNs from the registration"
    ∷ "# flow (overrides registrations_require_3pid if MSISDNs are set as required)" ∷ "#"
    ∷ "#disable_msisdn_registration: true" ∷ ""
    ∷ "# Mandate that users are only allowed to associate certain formats of"
    ∷ "# 3PIDs with accounts on this server." ∷ "#" ∷ "#allowed_local_3pids:" ∷ "#  - medium: email"
    ∷ "#    pattern: '.*@matrix\\.org'" ∷ "#  - medium: email" ∷ "#    pattern: '.*@vector\\.im'"
    ∷ "#  - medium: msisdn" ∷ "#    pattern: '\\+44'" ∷ ""
    ∷ "# Enable 3PIDs lookup requests to identity servers from this server." ∷ "#"
    ∷ "#enable_3pid_lookup: true" ∷ ""
    ∷ "# If set, allows registration of standard or admin accounts by anyone who"
    ∷ "# has the shared secret, even if registration is otherwise disabled." ∷ "#"
    ∷ "registration_shared_secret: \":Cc*s^6_Xm*zcxu.jcxJXN=zGFaMzaUgmsP^gnCRFYg3,Tacsx\"" ∷ ""
    ∷ "# Set the number of bcrypt rounds used to generate password hash."
    ∷ "# Larger numbers increase the work factor needed to generate the hash."
    ∷ "# The default number is 12 (which equates to 2^12 rounds)."
    ∷ "# N.B. that increasing this will exponentially increase the time required"
    ∷ "# to register or login - e.g. 24 => 2^24 rounds which will take >20 mins." ∷ "#"
    ∷ "#bcrypt_rounds: 12" ∷ ""
    ∷ "# Allows users to register as guests without a password/email/etc, and"
    ∷ "# participate in rooms hosted on this server which have been made"
    ∷ "# accessible to anonymous users." ∷ "#" ∷ "#allow_guest_access: false" ∷ ""
    ∷ "# The identity server which we suggest that clients should use when users log"
    ∷ "# in on this server." ∷ "#"
    ∷ "# (By default, no suggestion is made, so it is left up to the client."
    ∷ "# This setting is ignored unless public_baseurl is also set.)" ∷ "#"
    ∷ "#default_identity_server: https://matrix.org" ∷ "" ∷ []
