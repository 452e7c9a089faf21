-- ===== src/MautrixSignal/Config/Sections.antt =====
-- What config.yaml says after its edit.
use synapse_operator.Base.{
  String, ◌<>◌, ◌≡◌, sym, ap, ◌∙◌, Option, none, some, [], ◌∷◌, ◌==◌, if◌then◌else◌, arith,
}
use synapse_operator.Go.{
  Result, ok, ok_inj, bind_ok, Value, text, dict, string_dict, Fields, get_field,
  get_field-set_field, set_field,
}
use synapse_operator.Api.{MautrixSignal}
use synapse_operator.MautrixSignal.Config.Address.{synapse_address, bridge_address}
use synapse_operator.MautrixSignal.Config.Permissions.{permissions_lem}
use synapse_operator.MautrixSignal.Config.{
  as_section, edit_section, edit_homeserver_section, edit_bridge_section, edit_logging_section,
  update_mautrix_signal_data,
}

as_section_dict :
    (name : String) (v : Option Value) (m : Fields) → as_section name v ≡ ok m → v ≡ some (dict m)
unfolding as_section
as_section_dict name v m h = ground arith

-- An edit of a section that succeeds: the section before and after it.
abbrev pub SectionEdited : String → (Fields → Result Fields) → Fields → Fields → Type 0
SectionEdited key edit config config' =
    (section : Fields) × (edited : Fields) × (get_field key config ≡ some (dict section))
    × (edit section ≡ ok edited)
    × ((other : String)
        → get_field other config'
          ≡ (if key == other then some (dict edited) else get_field other config))

edit_section-SectionEdited :
    (key name : String) (edit : Fields → Result Fields) (config config' : Fields)
    → edit_section key name edit config ≡ ok config'
    → SectionEdited key edit config config'
unfolding edit_section
edit_section-SectionEdited key name edit config config' h =
    let (section, found, h₁) = bind_ok (as_section name (get_field key config)) _ h in
    let (edited, done, h₂) = bind_ok (edit section) _ h₁ in
    let same = ok_inj _ config' h₂ in
    (
      section,
      edited,
      as_section_dict name (get_field key config) section found,
      done,
      (λ other.
          ap (get_field other) (sym same) ∙ get_field-set_field key other (dict edited) config),
    )

inside : String → Option Value → Option Value
inside key (some (dict m)) = get_field key m
inside key _ = none

-- What a document has under a key of one of its sections.
unfoldable pub section_field : String → String → Fields → Option Value
unfolding inside
section_field section key config = inside key (get_field section config)

section_field-dict :
    (section key : String) (config m : Fields) (v : Option Value)
    → get_field section config ≡ some (dict m)
    → get_field key m ≡ v
    → section_field section key config ≡ v
unfolding section_field inside
section_field-dict section key config m v found here = ap (inside key) found ∙ here

module _ (ms : MautrixSignal) (config config' : Fields) where
  -- If the edit of config.yaml succeeds, the bridge is told the address and the name of its
  -- homeserver and the path of the signald socket, the homeserver is told the address of the bridge,
  -- and the users of the homeserver and its admin have their permissions, beside the relaying of all
  -- other users unless the homeserver is named by the same key `*`.
  pub update_mautrix_signal_data-configures :
      update_mautrix_signal_data ms config ≡ ok config'
      → (section_field "homeserver" "address" config' ≡ some (text (synapse_address ms)))
        × (section_field "homeserver" "domain" config' ≡ some (text ms.status.server_name))
        × (section_field "appservice" "address" config' ≡ some (text (bridge_address ms)))
        × (section_field "signal" "socket_path" config' ≡ some (text "/signald/signald.sock"))
        × (section_field "bridge" "permissions" config'
            ≡ some (
                string_dict (
                  if "*" == ms.status.server_name
                  then (ms.status.server_name, "user")
                    ∷ (("@admin:" <> ms.status.server_name), "admin")
                    ∷ []
                  else ("*", "relay")
                    ∷ (ms.status.server_name, "user")
                    ∷ (("@admin:" <> ms.status.server_name), "admin")
                    ∷ [])))
  unfolding update_mautrix_signal_data edit_homeserver_section edit_bridge_section
  update_mautrix_signal_data-configures h =
      let edit₂ : Fields → Result Fields =
        λ m. ok (set_field "address" (text (bridge_address ms)) m) in
      let edit₃ : Fields → Result Fields =
        λ m. ok (set_field "socket_path" (text "/signald/signald.sock") m) in
      let (c₁, p₁, h₁) =
        bind_ok (edit_section "homeserver" "homeserver" (edit_homeserver_section ms) config) _ h in
      let (c₂, p₂, h₂) = bind_ok (edit_section "appservice" "appservice" edit₂ c₁) _ h₁ in
      let (c₃, p₃, h₃) = bind_ok (edit_section "signal" "signal" edit₃ c₂) _ h₂ in
      let (c₄, p₄, p₅) =
        bind_ok (edit_section "bridge" "bridge" (edit_bridge_section ms) c₃) _ h₃ in
      let (m₁, e₁, _, d₁, law₁) =
        edit_section-SectionEdited "homeserver" "homeserver" (edit_homeserver_section ms) config c₁
          p₁ in
      let (m₂, e₂, _, d₂, law₂) =
        edit_section-SectionEdited "appservice" "appservice" edit₂ c₁ c₂ p₂ in
      let (m₃, e₃, _, d₃, law₃) = edit_section-SectionEdited "signal" "signal" edit₃ c₂ c₃ p₃ in
      let (m₄, e₄, _, d₄, law₄) =
        edit_section-SectionEdited "bridge" "bridge" (edit_bridge_section ms) c₃ c₄ p₄ in
      let (m₅, e₅, _, d₅, law₅) =
        edit_section-SectionEdited "logging" "logging" edit_logging_section c₄ config' p₅ in
      let homeserver : get_field "homeserver" config' ≡ some (dict e₁) =
        law₅ "homeserver"
        ∙ (law₄ "homeserver" ∙ (law₃ "homeserver" ∙ (law₂ "homeserver" ∙ law₁ "homeserver"))) in
      let appservice : get_field "appservice" config' ≡ some (dict e₂) =
        law₅ "appservice" ∙ (law₄ "appservice" ∙ (law₃ "appservice" ∙ law₂ "appservice")) in
      let signal : get_field "signal" config' ≡ some (dict e₃) =
        law₅ "signal" ∙ (law₄ "signal" ∙ law₃ "signal") in
      let bridge : get_field "bridge" config' ≡ some (dict e₄) = law₅ "bridge" ∙ law₄ "bridge" in
      (
        section_field-dict "homeserver" "address" config' e₁ _ homeserver (
            ap (get_field "address") (sym (ok_inj _ e₁ d₁))
            ∙ (get_field-set_field "domain" "address" _ _
                ∙ get_field-set_field "address" "address" _ m₁)),
        section_field-dict "homeserver" "domain" config' e₁ _ homeserver (
            ap (get_field "domain") (sym (ok_inj _ e₁ d₁))
            ∙ get_field-set_field "domain" "domain" _ _),
        section_field-dict "appservice" "address" config' e₂ _ appservice (
            ap (get_field "address") (sym (ok_inj _ e₂ d₂))
            ∙ get_field-set_field "address" "address" _ m₂),
        section_field-dict "signal" "socket_path" config' e₃ _ signal (
            ap (get_field "socket_path") (sym (ok_inj _ e₃ d₃))
            ∙ get_field-set_field "socket_path" "socket_path" _ m₃),
        section_field-dict "bridge" "permissions" config' e₄ _ bridge (
            ap (get_field "permissions") (sym (ok_inj _ e₄ d₄))
            ∙ (get_field-set_field "permissions" "permissions" _ m₄
                ∙ ap (λ entries. some (string_dict entries))
                    (permissions_lem ms.status.server_name))),
      )
