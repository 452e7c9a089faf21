-- ===== src/Synapse/Config/Template/Mapping.antt =====
-- The mapping of SAML2 users, in the text that `configMapForSynapse` of
-- controllers/synapse/synapse/synapse_configmap.go writes to homeserver.yaml.
use synapse_operator.Base.{String, List, [], ◌∷◌}

abbrev pub mapping_lines : List String
mapping_lines =
    "      # The mapping system to use for mapping the saml attribute onto a" ∷ "      # matrix ID."
    ∷ "      #" ∷ "      # Options include:"
    ∷ "      #  * 'hexencode' (which maps unpermitted characters to '=xx')"
    ∷ "      #  * 'dotreplace' (which replaces unpermitted characters with" ∷ "      #     '.')."
    ∷ "      # The default is 'hexencode'." ∷ "      #"
    ∷ "      # Note: This used to be configured by the"
    ∷ "      # saml2_config.mxid_mapping option. If that is still defined, its"
    ∷ "      # value will be used instead." ∷ "      #" ∷ "      #mxid_mapping: dotreplace" ∷ ""
    ∷ "  # In previous versions of synapse, the mapping from SAML attribute to"
    ∷ "  # MXID was always calculated dynamically rather than stored in a"
    ∷ "  # table. For backwards- compatibility, we will look for user_ids"
    ∷ "  # matching such a pattern before creating a new account." ∷ "  #"
    ∷ "  # This setting controls the SAML attribute which will be used for this"
    ∷ "  # backwards-compatibility lookup. Typically it should be 'uid', but if"
    ∷ "  # the attribute maps are changed, it may be necessary to change it." ∷ "  #"
    ∷ "  # The default is 'uid'." ∷ "  #" ∷ "  #grandfathered_mxid_source_attribute: upn" ∷ ""
    ∷ "  # It is possible to configure Synapse to only allow logins if SAML attributes"
    ∷ "  # match particular values. The requirements can be listed under"
    ∷ "  #  'attribute_requirements ' as shown below. All of the listed attributes must"
    ∷ "  # match for the login to be permitted." ∷ "  #" ∷ "  #attribute_requirements:"
    ∷ "  #  - attribute: userGroup" ∷ "  #    value: \"staff\"" ∷ "  #  - attribute: department"
    ∷ "  #    value: \"sales\"" ∷ ""
    ∷ "  # If the metadata XML contains multiple IdP entities then the  'idp_entityid '"
    ∷ "  # option must be set to the entity to redirect users to." ∷ "  #"
    ∷ "  # Most deployments only have a single IdP entity and so should omit this" ∷ "  # option."
    ∷ "  #" ∷ "  #idp_entityid: 'https://our_idp/entityid'" ∷ "" ∷ "" ∷ []
