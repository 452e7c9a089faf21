-- ===== src/Synapse/Config/Template/Federation.antt =====
-- ACME and the federation, in the text that `configMapForSynapse` of
-- controllers/synapse/synapse/synapse_configmap.go writes to homeserver.yaml.
use synapse_operator.Base.{String, List, [], ◌∷◌}

abbrev pub federation_lines : List String
federation_lines =
    "# ACME support: This will configure Synapse to request a valid TLS certificate"
    ∷ "# for your configured  'server_name ' via Let's Encrypt." ∷ "#"
    ∷ "# Note that ACME v1 is now deprecated, and Synapse currently doesn't support"
    ∷ "# ACME v2. This means that this feature currently won't work with installs set"
    ∷ "# up after November 2019. For more info, and alternative solutions, see"
    ∷ "# https://github.com/matrix-org/synapse/blob/master/docs/ACME.md#deprecation-of-acme-v1"
    ∷ "#" ∷ "# Note that provisioning a certificate in this way requires port 80 to be"
    ∷ "# routed to Synapse so that it can complete the http-01 ACME challenge."
    ∷ "# By default, if you enable ACME support, Synapse will attempt to listen on"
    ∷ "# port 80 for incoming http-01 challenges - however, this will likely fail"
    ∷ "# with 'Permission denied' or a similar error." ∷ "#"
    ∷ "# There are a couple of potential solutions to this:" ∷ "#"
    ∷ "#  * If you already have an Apache, Nginx, or similar listening on port 80,"
    ∷ "#    you can configure Synapse to use an alternate port, and have your web"
    ∷ "#    server forward the requests. For example, assuming you set 'port: 8009'"
    ∷ "#    below, on Apache, you would write:" ∷ "#"
    ∷ "#    ProxyPass /.well-known/acme-challenge http://localhost:8009/.well-known/acme-challenge"
    ∷ "#" ∷ "#  * Alternatively, you can use something like  'authbind ' to give Synapse"
    ∷ "#    permission to listen on port 80." ∷ "#" ∷ "acme:"
    ∷ "    # ACME support is disabled by default. Set this to  'true ' and uncomment"
    ∷ "    # tls_certificate_path and tls_private_key_path above to enable it." ∷ "    #"
    ∷ "    enabled: false" ∷ ""
    ∷ "    # Endpoint to use to request certificates. If you only want to test,"
    ∷ "    # use Let's Encrypt's staging url:"
    ∷ "    #     https://acme-staging.api.letsencrypt.org/directory" ∷ "    #"
    ∷ "    #url: https://acme-v01.api.letsencrypt.org/directory" ∷ ""
    ∷ "    # Port number to listen on for the HTTP-01 challenge. Change this if"
    ∷ "    # you are forwarding connections through Apache/Nginx/etc." ∷ "    #" ∷ "    port: 80"
    ∷ "" ∷ "    # Local addresses to listen on for incoming connections."
    ∷ "    # Again, you may want to change this if you are forwarding connections"
    ∷ "    # through Apache/Nginx/etc." ∷ "    #" ∷ "    bind_addresses: ['::', '0.0.0.0']" ∷ ""
    ∷ "    # How many days remaining on a certificate before it is renewed." ∷ "    #"
    ∷ "    reprovision_threshold: 30" ∷ ""
    ∷ "    # The domain that the certificate should be for. Normally this"
    ∷ "    # should be the same as your Matrix domain (i.e., 'server_name'), but,"
    ∷ "    # by putting a file at 'https://<server_name>/.well-known/matrix/server',"
    ∷ "    # you can delegate incoming traffic to another server. If you do that,"
    ∷ "    # you should give the target of the delegation here." ∷ "    #"
    ∷ "    # For example: if your 'server_name' is 'example.com', but"
    ∷ "    # 'https://example.com/.well-known/matrix/server' delegates to"
    ∷ "    # 'matrix.example.com', you should put 'matrix.example.com' here." ∷ "    #"
    ∷ "    # If not set, defaults to your 'server_name'." ∷ "    #"
    ∷ "    domain: matrix.example.com" ∷ ""
    ∷ "    # file to use for the account key. This will be generated if it doesn't" ∷ "    # exist."
    ∷ "    #" ∷ "    # If unspecified, we will use CONFDIR/client.key." ∷ "    #"
    ∷ "    account_key_file: /acme_account.key" ∷ ""
    ∷ "    # List of allowed TLS fingerprints for this server to publish along"
    ∷ "# with the signing keys for this server. Other matrix servers that"
    ∷ "# make HTTPS requests to this server will check that the TLS"
    ∷ "# certificates returned by this server match one of the fingerprints." ∷ "#"
    ∷ "# Synapse automatically adds the fingerprint of its own certificate"
    ∷ "# to the list. So if federation traffic is handled directly by synapse"
    ∷ "# then no modification to the list is required." ∷ "#"
    ∷ "# If synapse is run behind a load balancer that handles the TLS then it"
    ∷ "# will be necessary to add the fingerprints of the certificates used by"
    ∷ "# the loadbalancers to this list if they are different to the one" ∷ "# synapse is using."
    ∷ "#" ∷ "# Homeservers are permitted to cache the list of TLS fingerprints"
    ∷ "# returned in the key responses up to the \"valid_until_ts\" returned in"
    ∷ "# key. It may be necessary to publish the fingerprints of a new"
    ∷ "# certificate and wait until the \"valid_until_ts\" of the previous key"
    ∷ "# responses have passed before deploying it." ∷ "#"
    ∷ "# You can calculate a fingerprint from a given TLS listener via:"
    ∷ "# openssl s_client -connect $host:$port < /dev/null 2> /dev/null |"
    ∷ "#   openssl x509 -outform DER | openssl sha256 -binary | base64 | tr -d '='"
    ∷ "# or by checking matrix.org/federationtester/api/report?server_name=$host" ∷ "#"
    ∷ "#tls_fingerprints: [{\"sha256\": \"<base64_encoded_sha256_fingerprint>\"}]" ∷ "" ∷ ""
    ∷ "## Federation ##" ∷ "" ∷ "# Restrict federation to the following whitelist of domains."
    ∷ "# N.B. we recommend also firewalling your federation listener to limit"
    ∷ "# inbound federation traffic as early as possible, rather than relying"
    ∷ "# purely on this application-layer restriction.  If not specified, the"
    ∷ "# default is to whitelist everything." ∷ "#" ∷ "#federation_domain_whitelist:"
    ∷ "#  - lon.example.com" ∷ "#  - nyc.example.com" ∷ "#  - syd.example.com" ∷ ""
    ∷ "# Report prometheus metrics on the age of PDUs being sent to and received from"
    ∷ "# the following domains. This can be used to give an idea of \"delay\" on inbound"
    ∷ "# and outbound federation, though be aware that any delay can be due to problems"
    ∷ "# at either end or with the intermediate network." ∷ "#"
    ∷ "# By default, no domains are monitored in this way." ∷ "#" ∷ "#federation_metrics_domains:"
    ∷ "#  - matrix.org" ∷ "#  - example.com" ∷ "" ∷ "" ∷ []
