-- ===== src/Text/Bytes.antt =====
-- `[]byte(s)`, `string(b)` and `strings.Split`.
use Prim.Native.Char.{Char, char, code, nul, IsScalar}
use Prim.Native.Nat.{compare, Ordering}
use text.Mathlib.TextEquality.{Char-path}
use text.Mathlib.TextLemmas.{nil-append, cons-append}
use mathlib.Core.Logic.{dite, dif_pos}
use native.Mathlib.Bridge.{le_prop}
use native.Mathlib.Decide.{dec_lt}
use synapse_operator.Base.{
  ℕ, ◌<◌, String, ◌<>◌, ◌≡◌, refl, ap, ◌∙◌, ap₂, true, false, List, [], ◌∷◌, arith, eqb,
  if◌then◌else◌,
}

unfoldable pub bytes : String → List ℕ
bytes String.[] = []
bytes (String.◌∷◌ c s) = code c ∷ bytes s

below_scalars : (n : ℕ) → n < 256 → compare n 55296 ≡ Ordering.lt
below_scalars n h = ground arith

pub byte-IsScalar : (n : ℕ) → n < 256 → IsScalar n
byte-IsScalar n h = rw (below_scalars n h) tt

unfoldable pub byte_char : ℕ → Char
byte_char n = dite (dec_lt n 256) (λ h. char n (byte-IsScalar n h)) (λ _. nul)

code-byte_char : (n : ℕ) → n < 256 → code (byte_char n) ≡ n
unfolding byte_char
code-byte_char n h = rw (dif_pos _ le_prop h)

unfoldable pub text_of : List ℕ → String
unfolding byte_char dec_lt
text_of [] = ""
text_of (n ∷ ns) = String.◌∷◌ (byte_char n) (text_of ns)

-- Every element is a byte.
abbrev pub AllBytes : List ℕ → Type 0
AllBytes [] = Unit
AllBytes (n ∷ ns) = (n < 256) × AllBytes ns

pub text_of-bytes : (s : String) → AllBytes (bytes s) → text_of (bytes s) ≡ s
unfolding bytes text_of
text_of-bytes String.[] h = refl
text_of-bytes (String.◌∷◌ c s) h =
    ap₂ String.◌∷◌ (Char-path _ c (code-byte_char (code c) h.0)) (text_of-bytes s h.1)

pub bytes-text_of : (ns : List ℕ) → AllBytes ns → bytes (text_of ns) ≡ ns
unfolding bytes text_of
bytes-text_of [] h = refl
bytes-text_of (n ∷ ns) h = ap₂ ◌∷◌ (code-byte_char n h.0) (bytes-text_of ns h.1)

onto_first : Char → List String → List String
onto_first c [] = (String.◌∷◌ c "") ∷ []
onto_first c (p ∷ ps) = (String.◌∷◌ c p) ∷ ps

-- `strings.Split(s, sep)` at a separator of one byte.
unfoldable pub split : ℕ → String → List String
unfolding onto_first
split sep String.[] = "" ∷ []
split sep (String.◌∷◌ c s) =
    let parts = split sep s in if eqb (code c) sep then "" ∷ parts else onto_first c parts

-- The separator does not occur.
abbrev pub Lacks : ℕ → String → Type 0
Lacks sep String.[] = Unit
Lacks sep (String.◌∷◌ c s) = (eqb (code c) sep ≡ false) × Lacks sep s

pub split_lacking : (sep : ℕ) (s : String) → Lacks sep s → split sep s ≡ s ∷ []
unfolding split
split_lacking sep String.[] h = refl
split_lacking sep (String.◌∷◌ c s) h = rw (h.0, split_lacking sep s h.1)

eqb_self : (n : ℕ) → eqb n n ≡ true
eqb_self n = ground arith

split-cons :
    (sep : Char) (s t : String)
    → Lacks (code sep) s
    → split (code sep) (s <> String.◌∷◌ sep t) ≡ s ∷ split (code sep) t
unfolding split
split-cons sep String.[] t hs = rw (nil-append, eqb_self (code sep))
split-cons sep (String.◌∷◌ c s) t hs = rw cons-append (rw (hs.0, split-cons sep s t hs.1))

-- The text before the first separator is the first part.
pub split-first :
    (sep : Char) (s t : String)
    → Lacks (code sep) s
    → split (code sep) (s <> (String.◌∷◌ sep "" <> t)) ≡ s ∷ split (code sep) t
split-first sep s t hs = rw (cons-append, nil-append t) (split-cons sep s t hs)

-- Two parts without the separator, joined by it, are the two parts that it splits into.
pub split-append :
    (sep : Char) (s t : String)
    → Lacks (code sep) s
    → Lacks (code sep) t
    → split (code sep) (s <> (String.◌∷◌ sep "" <> t)) ≡ s ∷ t ∷ []
split-append sep s t hs ht =
    split-first sep s t hs ∙ ap (λ parts. s ∷ parts) (split_lacking (code sep) t ht)
