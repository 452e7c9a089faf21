-- ===== src/Synapse/Config/Template/Passwords.antt =====
-- JSON web tokens and passwords, in the text that `configMapForSynapse` of
-- controllers/synapse/synapse/synapse_configmap.go writes to homeserver.yaml.
use synapse_operator.Base.{String, List, [], ◌∷◌}

abbrev pub password_lines : List String
password_lines =
    "    # JSON web token integration. The following settings can be used to make"
    ∷ "# Synapse JSON web tokens for authentication, instead of its internal"
    ∷ "# password database." ∷ "#"
    ∷ "# Each JSON Web Token needs to contain a \"sub\" (subject) claim, which is"
    ∷ "# used as the localpart of the mxid." ∷ "#"
    ∷ "# Additionally, the expiration time (\"exp\"), not before time (\"nbf\"),"
    ∷ "# and issued at (\"iat\") claims are validated if present." ∷ "#"
    ∷ "# Note that this is a non-standard login type and client support is"
    ∷ "# expected to be non-existent." ∷ "#"
    ∷ "# See https://github.com/matrix-org/synapse/blob/master/docs/jwt.md." ∷ "#" ∷ "#jwt_config:"
    ∷ "    # Uncomment the following to enable authorization using JSON web"
    ∷ "    # tokens. Defaults to false." ∷ "    #" ∷ "    #enabled: true" ∷ ""
    ∷ "    # This is either the private shared secret or the public key used to"
    ∷ "    # decode the contents of the JSON web token." ∷ "    #"
    ∷ "    # Required if 'enabled' is true." ∷ "    #" ∷ "    #secret: \"provided-by-your-issuer\""
    ∷ "" ∷ "    # The algorithm used to sign the JSON web token." ∷ "    #"
    ∷ "    # Supported algorithms are listed at"
    ∷ "    # https://pyjwt.readthedocs.io/en/latest/algorithms.html" ∷ "    #"
    ∷ "    # Required if 'enabled' is true." ∷ "    #"
    ∷ "    #algorithm: \"provided-by-your-issuer\"" ∷ ""
    ∷ "    # The issuer to validate the \"iss\" claim against." ∷ "    #"
    ∷ "    # Optional, if provided the \"iss\" claim will be required and"
    ∷ "    # validated for all JSON web tokens." ∷ "    #"
    ∷ "    #issuer: \"provided-by-your-issuer\"" ∷ ""
    ∷ "    # A list of audiences to validate the \"aud\" claim against." ∷ "    #"
    ∷ "    # Optional, if provided the \"aud\" claim will be required and"
    ∷ "    # validated for all JSON web tokens." ∷ "    #"
    ∷ "    # Note that if the \"aud\" claim is included in a JSON web token then"
    ∷ "    # validation will fail without configuring audiences." ∷ "    #" ∷ "    #audiences:"
    ∷ "    #    - \"provided-by-your-issuer\"" ∷ "" ∷ "" ∷ "    password_config:"
    ∷ "   # Uncomment to disable password login" ∷ "   #" ∷ "   #enabled: false" ∷ ""
    ∷ "   # Uncomment to disable authentication against the local password"
    ∷ "   # database. This is ignored if  'enabled ' is false, and is only useful"
    ∷ "   # if you have other password_providers." ∷ "   #" ∷ "   #localdb_enabled: false" ∷ ""
    ∷ "   # Uncomment and change to a secret random string for extra security."
    ∷ "   # DO NOT CHANGE THIS AFTER INITIAL SETUP!" ∷ "   #" ∷ "   #pepper: \"EVEN_MORE_SECRET\""
    ∷ "" ∷ "   # Define and enforce a password policy. Each parameter is optional."
    ∷ "   # This is an implementation of MSC2000." ∷ "   #" ∷ "    policy:"
    ∷ "      # Whether to enforce the password policy." ∷ "      # Defaults to 'false'." ∷ "      #"
    ∷ "      #enabled: true" ∷ "" ∷ "      # Minimum accepted length for a password."
    ∷ "      # Defaults to 0." ∷ "      #" ∷ "      #minimum_length: 15" ∷ ""
    ∷ "      # Whether a password must contain at least one digit." ∷ "      # Defaults to 'false'."
    ∷ "      #" ∷ "      #require_digit: true" ∷ ""
    ∷ "      # Whether a password must contain at least one symbol."
    ∷ "      # A symbol is any character that's not a number or a letter."
    ∷ "      # Defaults to 'false'." ∷ "      #" ∷ "      #require_symbol: true" ∷ ""
    ∷ "      # Whether a password must contain at least one lowercase letter."
    ∷ "      # Defaults to 'false'." ∷ "      #" ∷ "      #require_lowercase: true" ∷ ""
    ∷ "      # Whether a password must contain at least one lowercase letter."
    ∷ "      # Defaults to 'false'." ∷ "      #" ∷ "      #require_uppercase: true" ∷ ""
    ∷ "      ui_auth:"
    ∷ "    # The number of milliseconds to allow a user-interactive authentication"
    ∷ "    # session to be active." ∷ "    #"
    ∷ "    # This defaults to 0, meaning the user is queried for their credentials"
    ∷ "    # before every action, but this can be overridden to alow a single"
    ∷ "    # validation to be re-used.  This weakens the protections afforded by"
    ∷ "    # the user-interactive authentication process, by allowing for multiple"
    ∷ "    # (and potentially different) operations to use the same validation session." ∷ "    #"
    ∷ "    # Uncomment below to allow for credential validation to last for 15" ∷ "    # seconds."
    ∷ "    #" ∷ "    #session_timeout: 15000" ∷ "" ∷ ""
    ∷ "    # Configuration for sending emails from Synapse." ∷ "#" ∷ "email:"
    ∷ "  # The hostname of the outgoing SMTP server to use. Defaults to 'localhost'." ∷ "  #"
    ∷ "  #smtp_host: mail.server" ∷ ""
    ∷ "  # The port on the mail server for outgoing SMTP. Defaults to 25." ∷ "  #"
    ∷ "  #smtp_port: 587" ∷ "" ∷ []
