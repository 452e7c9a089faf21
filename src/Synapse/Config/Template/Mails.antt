-- ===== src/Synapse/Config/Template/Mails.antt =====
-- The texts of mails and the providers of passwords, in the text that `configMapForSynapse` of
-- controllers/synapse/synapse/synapse_configmap.go writes to homeserver.yaml.
use synapse_operator.Base.{String, List, [], ◌∷◌}

abbrev pub mail_lines : List String
mail_lines =
    "  # Directory in which Synapse will try to find the template files below."
    ∷ "  # If not set, or the files named below are not found within the template"
    ∷ "  # directory, default templates from within the Synapse package will be used." ∷ "  #"
    ∷ "  # Synapse will look for the following templates in this directory:" ∷ "  #"
    ∷ "  # * The contents of email notifications of missed events: 'notif_mail.html' and"
    ∷ "  #   'notif_mail.txt'." ∷ "  #"
    ∷ "  # * The contents of account expiry notice emails: 'notice_expiry.html' and"
    ∷ "  #   'notice_expiry.txt'." ∷ "  #"
    ∷ "  # * The contents of password reset emails sent by the homeserver:"
    ∷ "  #   'password_reset.html' and 'password_reset.txt'" ∷ "  #"
    ∷ "  # * An HTML page that a user will see when they follow the link in the password"
    ∷ "  #   reset email. The user will be asked to confirm the action before their"
    ∷ "  #   password is reset: 'password_reset_confirmation.html'" ∷ "  #"
    ∷ "  # * HTML pages for success and failure that a user will see when they confirm"
    ∷ "  #   the password reset flow using the page above: 'password_reset_success.html'"
    ∷ "  #   and 'password_reset_failure.html'" ∷ "  #"
    ∷ "  # * The contents of address verification emails sent during registration:"
    ∷ "  #   'registration.html' and 'registration.txt'" ∷ "  #"
    ∷ "  # * HTML pages for success and failure that a user will see when they follow"
    ∷ "  #   the link in an address verification email sent during registration:"
    ∷ "  #   'registration_success.html' and 'registration_failure.html'" ∷ "  #"
    ∷ "  # * The contents of address verification emails sent when an address is added"
    ∷ "  #   to a Matrix account: 'add_threepid.html' and 'add_threepid.txt'" ∷ "  #"
    ∷ "  # * HTML pages for success and failure that a user will see when they follow"
    ∷ "  #   the link in an address verification email sent when an address is added"
    ∷ "  #   to a Matrix account: 'add_threepid_success.html' and"
    ∷ "  #   'add_threepid_failure.html'" ∷ "  #" ∷ "  # You can see the default templates at:"
    ∷ "  # https://github.com/matrix-org/synapse/tree/master/synapse/res/templates" ∷ "  #"
    ∷ "  #template_dir: \"res/templates\"" ∷ ""
    ∷ "  # Subjects to use when sending emails from Synapse." ∷ "  #"
    ∷ "  # The placeholder '%(app)s' will be replaced with the value of the 'app_name'"
    ∷ "  # setting above, or by a value dictated by the Matrix client application." ∷ "  #"
    ∷ "  # If a subject isn't overridden in this configuration file, the value used as"
    ∷ "  # its example will be used." ∷ "  #" ∷ "  #subjects:" ∷ ""
    ∷ "    # Subjects for notification emails." ∷ "    #"
    ∷ "    # On top of the '%(app)s' placeholder, these can use the following"
    ∷ "    # placeholders:" ∷ "    #"
    ∷ "    #   * '%(person)s', which will be replaced by the display name of the user(s)"
    ∷ "    #      that sent the message(s), e.g. \"Alice and Bob\"."
    ∷ "    #   * '%(room)s', which will be replaced by the name of the room the"
    ∷ "    #      message(s) have been sent to, e.g. \"My super room\"." ∷ "    #"
    ∷ "    # See the example provided for each setting to see which placeholder can be"
    ∷ "    # used and how to use them." ∷ "    #"
    ∷ "    # Subject to use to notify about one message from one or more user(s) in a"
    ∷ "    # room which has a name."
    ∷ "    #message_from_person_in_room: \"[%(app)s] You have a message on %(app)s from %(person)s in the %(room)s room...\""
    ∷ "    #" ∷ "    # Subject to use to notify about one message from one or more user(s) in a"
    ∷ "    # room which doesn't have a name."
    ∷ "    #message_from_person: \"[%(app)s] You have a message on %(app)s from %(person)s...\""
    ∷ "    #" ∷ "    # Subject to use to notify about multiple messages from one or more users in"
    ∷ "    # a room which doesn't have a name."
    ∷ "    #messages_from_person: \"[%(app)s] You have messages on %(app)s from %(person)s...\""
    ∷ "    #" ∷ "    # Subject to use to notify about multiple messages in a room which has a"
    ∷ "    # name."
    ∷ "    #messages_in_room: \"[%(app)s] You have messages on %(app)s in the %(room)s room...\""
    ∷ "    #" ∷ "    # Subject to use to notify about multiple messages in multiple rooms."
    ∷ "    #messages_in_room_and_others: \"[%(app)s] You have messages on %(app)s in the %(room)s room and others...\""
    ∷ "    #" ∷ "    # Subject to use to notify about multiple messages from multiple persons in"
    ∷ "    # multiple rooms. This is similar to the setting above except it's used when"
    ∷ "    # the room in which the notification was triggered has no name."
    ∷ "    #messages_from_person_and_others: \"[%(app)s] You have messages on %(app)s from %(person)s and others...\""
    ∷ "    #" ∷ "    # Subject to use to notify about an invite to a room which has a name."
    ∷ "    #invite_from_person_to_room: \"[%(app)s] %(person)s has invited you to join the %(room)s room on %(app)s...\""
    ∷ "    #" ∷ "    # Subject to use to notify about an invite to a room which doesn't have a"
    ∷ "    # name."
    ∷ "    #invite_from_person: \"[%(app)s] %(person)s has invited you to chat on %(app)s...\"" ∷ ""
    ∷ "    # Subject for emails related to account administration." ∷ "    #"
    ∷ "    # On top of the '%(app)s' placeholder, these one can use the"
    ∷ "    # '%(server_name)s' placeholder, which will be replaced by the value of the"
    ∷ "    # 'server_name' setting in your Synapse configuration." ∷ "    #"
    ∷ "    # Subject to use when sending a password reset email."
    ∷ "    #password_reset: \"[%(server_name)s] Password reset\"" ∷ "    #"
    ∷ "    # Subject to use when sending a verification email to assert an address's"
    ∷ "    # ownership." ∷ "    #email_validation: \"[%(server_name)s] Validate your email\"" ∷ ""
    ∷ "" ∷ "    # Password providers allow homeserver administrators to integrate"
    ∷ "# their Synapse installation with existing authentication methods"
    ∷ "# ex. LDAP, external tokens, etc." ∷ "#"
    ∷ "# For more information and known implementations, please see"
    ∷ "# https://github.com/matrix-org/synapse/blob/master/docs/password_auth_providers.md" ∷ "#"
    ∷ "# Note: instances wishing to use SAML or CAS authentication should"
    ∷ "# instead use the  'saml2_config ' or  'cas_config ' options," ∷ "# respectively." ∷ "#"
    ∷ "password_providers:" ∷ "#    # Example config for an LDAP auth provider"
    ∷ "#    - module: \"ldap_auth_provider.LdapAuthProvider\"" ∷ "#      config:"
    ∷ "#        enabled: true" ∷ "#        uri: \"ldap://ldap.example.com:389\""
    ∷ "#        start_tls: true" ∷ "#        base: \"ou=users,dc=example,dc=com\""
    ∷ "#        attributes:" ∷ "#           uid: \"cn\"" ∷ "#           mail: \"email\""
    ∷ "#           name: \"givenName\"" ∷ "#        #bind_dn:" ∷ "#        #bind_password:"
    ∷ "#        #filter: \"(objectClass=posixAccount)\"" ∷ "" ∷ "" ∷ "" ∷ []
