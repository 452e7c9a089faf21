-- ===== src/Synapse/Config/Template/Listeners.antt =====
-- The listeners, in the text that `configMapForSynapse` of
-- controllers/synapse/synapse/synapse_configmap.go writes to homeserver.yaml.
use synapse_operator.Base.{String, List, [], ◌∷◌}

abbrev pub listener_lines : List String
listener_lines =
    "# Prevent outgoing requests from being sent to the following blacklisted IP address"
    ∷ "# CIDR ranges. If this option is not specified then it defaults to private IP"
    ∷ "# address ranges (see the example below)." ∷ "#"
    ∷ "# The blacklist applies to the outbound requests for federation, identity servers,"
    ∷ "# push servers, and for checking key validity for third-party invite events." ∷ "#"
    ∷ "# (0.0.0.0 and :: are always blacklisted, whether or not they are explicitly"
    ∷ "# listed here, since they correspond to unroutable addresses.)" ∷ "#"
    ∷ "# This option replaces federation_ip_range_blacklist in Synapse v1.25.0." ∷ "#"
    ∷ "#ip_range_blacklist:" ∷ "#  - '127.0.0.0/8'" ∷ "#  - '10.0.0.0/8'" ∷ "#  - '172.16.0.0/12'"
    ∷ "#  - '192.168.0.0/16'" ∷ "#  - '100.64.0.0/10'" ∷ "#  - '192.0.0.0/24'"
    ∷ "#  - '169.254.0.0/16'" ∷ "#  - '198.18.0.0/15'" ∷ "#  - '192.0.2.0/24'"
    ∷ "#  - '198.51.100.0/24'" ∷ "#  - '203.0.113.0/24'" ∷ "#  - '224.0.0.0/4'" ∷ "#  - '::1/128'"
    ∷ "#  - 'fe80::/10'" ∷ "#  - 'fc00::/7'" ∷ ""
    ∷ "# List of IP address CIDR ranges that should be allowed for federation,"
    ∷ "# identity servers, push servers, and for checking key validity for"
    ∷ "# third-party invite events. This is useful for specifying exceptions to"
    ∷ "# wide-ranging blacklisted target IP ranges - e.g. for communication with"
    ∷ "# a push server only visible in your network." ∷ "#"
    ∷ "# This whitelist overrides ip_range_blacklist and defaults to an empty" ∷ "# list." ∷ "#"
    ∷ "#ip_range_whitelist:" ∷ "#   - '192.168.1.1'" ∷ ""
    ∷ "# List of ports that Synapse should listen on, their purpose and their" ∷ "# configuration."
    ∷ "#" ∷ "# Options for each listener include:" ∷ "#" ∷ "#   port: the TCP port to bind to" ∷ "#"
    ∷ "#   bind_addresses: a list of local addresses to listen on. The default is"
    ∷ "#       'all local interfaces'." ∷ "#"
    ∷ "#   type: the type of listener. Normally 'http', but other valid options are:"
    ∷ "#       'manhole' (see docs/manhole.md)," ∷ "#       'metrics' (see docs/metrics-howto.md),"
    ∷ "#       'replication' (see docs/workers.md)." ∷ "#"
    ∷ "#   tls: set to true to enable TLS for this listener. Will use the TLS"
    ∷ "#       key/cert specified in tls_private_key_path / tls_certificate_path." ∷ "#"
    ∷ "#   x_forwarded: Only valid for an 'http' listener. Set to true to use the"
    ∷ "#       X-Forwarded-For header as the client IP. Useful when Synapse is"
    ∷ "#       behind a reverse-proxy." ∷ "#"
    ∷ "#   resources: Only valid for an 'http' listener. A list of resources to host"
    ∷ "#       on this port. Options for each resource are:" ∷ "#"
    ∷ "#       names: a list of names of HTTP resources. See below for a list of"
    ∷ "#           valid resource names." ∷ "#"
    ∷ "#       compress: set to true to enable HTTP compression for this resource." ∷ "#"
    ∷ "#   additional_resources: Only valid for an 'http' listener. A map of"
    ∷ "#        additional endpoints which should be loaded via dynamic modules." ∷ "#"
    ∷ "# Valid resource names are:" ∷ "#"
    ∷ "#   client: the client-server API (/_matrix/client), and the synapse admin"
    ∷ "#       API (/_synapse/admin). Also implies 'media' and 'static'." ∷ "#"
    ∷ "#   consent: user consent forms (/_matrix/consent). See"
    ∷ "#       docs/consent_tracking.md." ∷ "#"
    ∷ "#   federation: the server-server API (/_matrix/federation). Also implies"
    ∷ "#       'media', 'keys', 'openid'" ∷ "#" ∷ "#   keys: the key discovery API (/_matrix/keys)."
    ∷ "#" ∷ "#   media: the media API (/_matrix/media)." ∷ "#"
    ∷ "#   metrics: the metrics interface. See docs/metrics-howto.md." ∷ "#"
    ∷ "#   openid: OpenID authentication." ∷ "#"
    ∷ "#   replication: the HTTP replication API (/_synapse/replication). See"
    ∷ "#       docs/workers.md." ∷ "#"
    ∷ "#   static: static resources under synapse/static (/_matrix/static). (Mostly"
    ∷ "#       useful for 'fallback authentication'.)" ∷ "#"
    ∷ "#   webclient: A web client. Requires web_client_location to be set." ∷ "#" ∷ "listeners:"
    ∷ "  # TLS-enabled listener: for when matrix traffic is sent directly to synapse." ∷ "  #"
    ∷ "  # Disabled by default. To enable it, uncomment the following. (Note that you"
    ∷ "  # will also need to give Synapse a TLS key and certificate: see the TLS section"
    ∷ "  # below.)" ∷ "  #" ∷ "  #- port: 8448" ∷ "  #  type: http" ∷ "  #  tls: true"
    ∷ "  #  resources:" ∷ "  #    - names: [client, federation]" ∷ ""
    ∷ "  # Unsecure HTTP listener: for when matrix traffic passes through a reverse proxy"
    ∷ "  # that unwraps TLS." ∷ "  #" ∷ "  # If you plan to use a reverse proxy, please see"
    ∷ "  # https://github.com/matrix-org/synapse/blob/master/docs/reverse_proxy.md." ∷ "  #"
    ∷ "  - port: 8008" ∷ "    tls: false" ∷ "    type: http" ∷ "    x_forwarded: true" ∷ ""
    ∷ "    resources:" ∷ "      - names: [client, federation]" ∷ "        compress: false" ∷ ""
    ∷ "    # example additional_resources:" ∷ "    #" ∷ "    #additional_resources:"
    ∷ "    #  \"/_matrix/my/custom/endpoint\":" ∷ "    #    module: my_module.CustomRequestHandler"
    ∷ "    #    config: {}" ∷ ""
    ∷ "  # Turn on the twisted ssh manhole service on localhost on the given" ∷ "  # port." ∷ "  #"
    ∷ "  #- port: 9000" ∷ "  #  bind_addresses: ['::1', '127.0.0.1']" ∷ "  #  type: manhole" ∷ ""
    ∷ []
