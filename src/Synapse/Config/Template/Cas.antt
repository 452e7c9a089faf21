-- ===== src/Synapse/Config/Template/Cas.antt =====
-- The central authentication service and single sign-on, in the text that `configMapForSynapse` of
-- controllers/synapse/synapse/synapse_configmap.go writes to homeserver.yaml.
use synapse_operator.Base.{String, List, [], ◌∷◌}

abbrev pub cas_lines : List String
cas_lines =
    "        # Enable Central Authentication Service (CAS) for registration and login." ∷ "#"
    ∷ "cas_config:" ∷ "  # Uncomment the following to enable authorization against a CAS server."
    ∷ "  # Defaults to false." ∷ "  #" ∷ "  #enabled: true" ∷ ""
    ∷ "  # The URL of the CAS authorization endpoint." ∷ "  #"
    ∷ "  #server_url: \"https://cas-server.com\"" ∷ "" ∷ "  # The public URL of the homeserver."
    ∷ "  #" ∷ "  #service_url: \"https://homeserver.domain.com:8448\"" ∷ ""
    ∷ "  # The attribute of the CAS response to use as the display name." ∷ "  #"
    ∷ "  # If unset, no displayname will be set." ∷ "  #" ∷ "  #displayname_attribute: name" ∷ ""
    ∷ "  # It is possible to configure Synapse to only allow logins if CAS attributes"
    ∷ "  # match particular values. All of the keys in the mapping below must exist"
    ∷ "  # and the values must match the given value. Alternately if the given value"
    ∷ "  # is None then any value is allowed (the attribute just must exist)."
    ∷ "  # All of the listed attributes must match for the login to be permitted." ∷ "  #"
    ∷ "  #required_attributes:" ∷ "  #  userGroup: \"staff\"" ∷ "  #  department: None" ∷ "" ∷ ""
    ∷ "  # Additional settings to use with single-sign on systems such as OpenID Connect,"
    ∷ "# SAML2 and CAS." ∷ "#" ∷ "sso:"
    ∷ "    # A list of client URLs which are whitelisted so that the user does not"
    ∷ "    # have to confirm giving access to their account to the URL. Any client"
    ∷ "    # whose URL starts with an entry in the following list will not be subject"
    ∷ "    # to an additional confirmation step after the SSO login is completed." ∷ "    #"
    ∷ "    # WARNING: An entry such as \"https://my.client\" is insecure, because it"
    ∷ "    # will also match \"https://my.client.evil.site\", exposing your users to"
    ∷ "    # phishing attacks from evil.site. To avoid this, include a slash after the"
    ∷ "    # hostname: \"https://my.client/\"." ∷ "    #"
    ∷ "    # If public_baseurl is set, then the login fallback page (used by clients"
    ∷ "    # that don't natively support the required login flows) is whitelisted in"
    ∷ "    # addition to any URLs in this list." ∷ "    #" ∷ "    # By default, this list is empty."
    ∷ "    #" ∷ "    #client_whitelist:" ∷ "    #  - https://riot.im/develop"
    ∷ "    #  - https://my.custom.client/" ∷ ""
    ∷ "    # Directory in which Synapse will try to find the template files below."
    ∷ "    # If not set, or the files named below are not found within the template"
    ∷ "    # directory, default templates from within the Synapse package will be used." ∷ "    #"
    ∷ "    # Synapse will look for the following templates in this directory:" ∷ "    #"
    ∷ "    # * HTML page for a confirmation step before redirecting back to the client"
    ∷ "    #   with the login token: 'sso_redirect_confirm.html'." ∷ "    #"
    ∷ "    #   When rendering, this template is given three variables:"
    ∷ "    #     * redirect_url: the URL the user is about to be redirected to. Needs"
    ∷ "    #                     manual escaping (see"
    ∷ "    #                     https://jinja.palletsprojects.com/en/2.11.x/templates/#html-escaping)."
    ∷ "    #" ∷ "    #     * display_url: the same as  'redirect_url', but with the query"
    ∷ "    #                    parameters stripped. The intention is to have a"
    ∷ "    #                    human-readable URL to show to users, not to use it as"
    ∷ "    #                    the final address to redirect to. Needs manual escaping"
    ∷ "    #                    (see https://jinja.palletsprojects.com/en/2.11.x/templates/#html-escaping)."
    ∷ "    #" ∷ "    #     * server_name: the homeserver's name." ∷ "    #"
    ∷ "    # * HTML page which notifies the user that they are authenticating to confirm"
    ∷ "    #   an operation on their account during the user interactive authentication"
    ∷ "    #   process: 'sso_auth_confirm.html'." ∷ "    #"
    ∷ "    #   When rendering, this template is given the following variables:"
    ∷ "    #     * redirect_url: the URL the user is about to be redirected to. Needs"
    ∷ "    #                     manual escaping (see"
    ∷ "    #                     https://jinja.palletsprojects.com/en/2.11.x/templates/#html-escaping)."
    ∷ "    #" ∷ "    #     * description: the operation which the user is being asked to confirm"
    ∷ "    #"
    ∷ "    # * HTML page shown after a successful user interactive authentication session:"
    ∷ "    #   'sso_auth_success.html'." ∷ "    #"
    ∷ "    #   Note that this page must include the JavaScript which notifies of a successful authentication"
    ∷ "    #   (see https://matrix.org/docs/spec/client_server/r0.6.0#fallback)." ∷ "    #"
    ∷ "    #   This template has no additional variables." ∷ "    #"
    ∷ "    # * HTML page shown during single sign-on if a deactivated user (according to Synapse's database)"
    ∷ "    #   attempts to login: 'sso_account_deactivated.html'." ∷ "    #"
    ∷ "    #   This template has no additional variables." ∷ "    #"
    ∷ "    # * HTML page to display to users if something goes wrong during the"
    ∷ "    #   OpenID Connect authentication process: 'sso_error.html'." ∷ "    #"
    ∷ "    #   When rendering, this template is given two variables:"
    ∷ "    #     * error: the technical name of the error"
    ∷ "    #     * error_description: a human-readable message for the error" ∷ "    #"
    ∷ "    # You can see the default templates at:"
    ∷ "    # https://github.com/matrix-org/synapse/tree/master/synapse/res/templates" ∷ "    #"
    ∷ "    #template_dir: \"res/templates\"" ∷ "" ∷ "" ∷ []
