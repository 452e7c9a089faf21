-- ===== src/Synapse/Config/Template/Previews.antt =====
-- Previews of URLs, the captcha and TURN, in the text that `configMapForSynapse` of
-- controllers/synapse/synapse/synapse_configmap.go writes to homeserver.yaml.
use synapse_operator.Base.{String, List, [], ◌∷◌}

abbrev pub preview_lines : List String
preview_lines =
    "# Optional list of URL matches that the URL preview spider is"
    ∷ "# denied from accessing.  You should use url_preview_ip_range_blacklist"
    ∷ "# in preference to this, otherwise someone could define a public DNS"
    ∷ "# entry that points to a private IP address and circumvent the blacklist."
    ∷ "# This is more useful if you know there is an entire shape of URL that"
    ∷ "# you know that will never want synapse to try to spider." ∷ "#"
    ∷ "# Each list entry is a dictionary of url component attributes as returned"
    ∷ "# by urlparse.urlsplit as applied to the absolute form of the URL.  See"
    ∷ "# https://docs.python.org/2/library/urlparse.html#urlparse.urlsplit"
    ∷ "# The values of the dictionary are treated as an filename match pattern"
    ∷ "# applied to that component of URLs, unless they start with a ^ in which"
    ∷ "# case they are treated as a regular expression match.  If all the"
    ∷ "# specified component matches for a given list item succeed, the URL is" ∷ "# blacklisted."
    ∷ "#" ∷ "#url_preview_url_blacklist:" ∷ "#  # blacklist any URL with a username in its URI"
    ∷ "#  - username: '*'" ∷ "#" ∷ "#  # blacklist all *.google.com URLs"
    ∷ "#  - netloc: 'google.com'" ∷ "#  - netloc: '*.google.com'" ∷ "#"
    ∷ "#  # blacklist all plain HTTP URLs" ∷ "#  - scheme: 'http'" ∷ "#"
    ∷ "#  # blacklist http(s)://www.acme.com/foo" ∷ "#  - netloc: 'www.acme.com'"
    ∷ "#    path: '/foo'" ∷ "#" ∷ "#  # blacklist any URL with a literal IPv4 address"
    ∷ "#  - netloc: '^[0-9]+\\.[0-9]+\\.[0-9]+\\.[0-9]+$'" ∷ ""
    ∷ "# The largest allowed URL preview spidering size in bytes" ∷ "#" ∷ "#max_spider_size: 10M"
    ∷ "" ∷ "# A list of values for the Accept-Language HTTP header used when"
    ∷ "# downloading webpages during URL preview generation. This allows"
    ∷ "# Synapse to specify the preferred languages that URL previews should"
    ∷ "# be in when communicating with remote servers." ∷ "#"
    ∷ "# Each value is a IETF language tag; a 2-3 letter identifier for a"
    ∷ "# language, optionally followed by subtags separated by '-', specifying"
    ∷ "# a country or region variant." ∷ "#"
    ∷ "# Multiple values can be provided, and a weight can be added to each by"
    ∷ "# using quality value syntax (;q=). '*' translates to any language." ∷ "#"
    ∷ "# Defaults to \"en\"." ∷ "#" ∷ "# Example:" ∷ "#" ∷ "# url_preview_accept_language:"
    ∷ "#   - en-UK" ∷ "#   - en-US;q=0.9" ∷ "#   - fr;q=0.8" ∷ "#   - *;q=0.7" ∷ "#"
    ∷ "url_preview_accept_language:" ∷ "#   - en" ∷ "" ∷ "" ∷ "## Captcha ##"
    ∷ "# See docs/CAPTCHA_SETUP.md for full details of configuring this." ∷ ""
    ∷ "# This homeserver's ReCAPTCHA public key. Must be specified if"
    ∷ "# enable_registration_captcha is enabled." ∷ "#"
    ∷ "#recaptcha_public_key: \"YOUR_PUBLIC_KEY\"" ∷ ""
    ∷ "# This homeserver's ReCAPTCHA private key. Must be specified if"
    ∷ "# enable_registration_captcha is enabled." ∷ "#"
    ∷ "#recaptcha_private_key: \"YOUR_PRIVATE_KEY\"" ∷ ""
    ∷ "# Uncomment to enable ReCaptcha checks when registering, preventing signup"
    ∷ "# unless a captcha is answered. Requires a valid ReCaptcha"
    ∷ "# public/private key. Defaults to 'false'." ∷ "#" ∷ "#enable_registration_captcha: true" ∷ ""
    ∷ "# The API endpoint to use for verifying m.login.recaptcha responses."
    ∷ "# Defaults to \"https://www.recaptcha.net/recaptcha/api/siteverify\"." ∷ "#"
    ∷ "#recaptcha_siteverify_api: \"https://my.recaptcha.site\"" ∷ "" ∷ "" ∷ "## TURN ##" ∷ ""
    ∷ "# The public URIs of the TURN server to give to clients" ∷ "#" ∷ "#turn_uris: []" ∷ ""
    ∷ "# The shared secret used to compute passwords for the TURN server" ∷ "#"
    ∷ "#turn_shared_secret: \"YOUR_SHARED_SECRET\"" ∷ ""
    ∷ "# The Username and password if the TURN server needs them and" ∷ "# does not use a token"
    ∷ "#" ∷ "#turn_username: \"TURNSERVER_USERNAME\"" ∷ "#turn_password: \"TURNSERVER_PASSWORD\""
    ∷ "" ∷ "# How long generated TURN credentials last" ∷ "#" ∷ "#turn_user_lifetime: 1h" ∷ ""
    ∷ "# Whether guests should be allowed to use the TURN server."
    ∷ "# This defaults to True, otherwise VoIP will be unreliable for guests."
    ∷ "# However, it does introduce a slight security risk as it allows users to"
    ∷ "# connect to arbitrary endpoints without having first signed up for a"
    ∷ "# valid account (e.g. by passing a CAPTCHA)." ∷ "#" ∷ "#turn_allow_guests: true" ∷ "" ∷ ""
    ∷ []
