-- ===== src/MautrixSignal/Config/Permissions.antt =====
-- The permissions of config.yaml, entry by entry.
use text.Mathlib.TextLemmas.{nil-append, cons-append}
use synapse_operator.Base.{
  ℕ, ◌+◌, ◌<◌, String, ◌<>◌, ◌≡◌, refl, ap, false, [], ◌∷◌, arith, ◌==◌, if◌then◌else◌, Bool-cases,
  inl, inr, eq_iff,
}
use synapse_operator.MautrixSignal.Config.{put_entry, permissions}

-- The number of characters.
size : String → ℕ
size String.[] = 0
size (String.◌∷◌ c s) = size s + 1

size-append : (a b : String) → size (a <> b) ≡ size a + size b
unfolding size
size-append String.[] b = rw nil-append (omega arith)
size-append (String.◌∷◌ c a) b = rw (cons-append, size, size-append a b) (omega arith)

-- A text is not equal to a longer one.
ne-size : (a b : String) → size a < size b → (a == b) ≡ false
ne-size a b shorter = elim (Bool-cases (a == b)) [
  | inl equal ↦
      let sizes : size a ≡ size b = ap size ((eq_iff a b).0 equal) in ground (arith, sizes, shorter)
  | inr other ↦ other
]

size-admin : (name : String) → size ("@admin:" <> name) ≡ 7 + size name
unfolding size
size-admin name = size-append "@admin:" name

-- Users elsewhere may relay, those of the homeserver may use the bridge, and its admin may
-- administer it; a homeserver of the name `*` has the entry of its users in place of the relay.
pub permissions_lem :
    (name : String)
    → permissions name ≡ (
        if "*" == name
        then (name, "user") ∷ (("@admin:" <> name), "admin") ∷ []
        else ("*", "relay") ∷ (name, "user") ∷ (("@admin:" <> name), "admin") ∷ [])
unfolding permissions put_entry size
permissions_lem name =
    let longer = size-admin name in
    let star : ("*" == ("@admin:" <> name)) ≡ false =
      ne-size "*" ("@admin:" <> name) (omega (arith, longer)) in
    let own : (name == ("@admin:" <> name)) ≡ false =
      ne-size name ("@admin:" <> name) (omega (arith, longer)) in
    elim (Bool-cases ("*" == name)) [
      | inl equal ↦ rw (equal, own) refl
      | inr other ↦ rw (other, star, own) refl
    ]
