-- ===== src/Text/Lines.antt =====
-- Texts of several lines, and which of them YAML reads.
use Prim.Native.Char.{code}
use text.Mathlib.TextLemmas.{nil-append, cons-append}
use synapse_operator.Base.{
  String, ◌<>◌, ◌≡◌, refl, ap, ◌∙◌, Bool, true, false, not, List, [], ◌∷◌, ◌++◌, eqb, if◌then◌else◌,
  ◌&&◌, arith,
}
use synapse_operator.Text.Bytes.{split, split-first, split_lacking, Lacks}

-- The lines with a line feed between any two.
unfoldable pub joined : List String → String
joined [] = ""
joined (line ∷ []) = line
joined (line ∷ next ∷ lines) = line <> ("\n" <> joined (next ∷ lines))

unfoldable pub concat : {A : Type 0} → List (List A) → List A
concat [] = []
concat (part ∷ parts) = part ++ concat parts

-- Neither blank nor a comment of YAML: the first character that is no space is not `#`.
unfoldable pub is_active : String → Bool
is_active String.[] = false
is_active (String.◌∷◌ c s) =
    let rest = is_active s in if eqb (code c) 32 then rest else not (eqb (code c) 35)

unfoldable pub kept_if : Bool → String → List String → List String
kept_if b line lines = if b then line ∷ lines else lines

unfoldable pub active : List String → List String
unfolding kept_if
active [] = []
active (line ∷ lines) = kept_if (is_active line) line (active lines)

if_mono :
    (b c : Bool) {x y : Bool}
    → (x ≡ true → y ≡ true)
    → (if b then x else c) ≡ true
    → (if b then y else c) ≡ true
if_mono true c f h = f h
if_mono false c f h = h

and_parts : (a b : Bool) → (a && b) ≡ true → (a ≡ true) × (b ≡ true)
and_parts true b h = (refl, h)
and_parts false b h = cc

pub is_active-append : (a b : String) → is_active a ≡ true → is_active (a <> b) ≡ true
unfolding is_active
is_active-append String.[] b h = cc
is_active-append (String.◌∷◌ c a) b h =
    rw (cons-append c a b, is_active)
      (if_mono (eqb (code c) 32) (not (eqb (code c) 35)) (is_active-append a b) h)

-- No line feed occurs.
unfoldable pub is_line : String → Bool
is_line String.[] = true
is_line (String.◌∷◌ c s) = not (eqb (code c) 10) && is_line s

pub is_line-append : (a b : String) → is_line a ≡ true → is_line b ≡ true → is_line (a <> b) ≡ true
unfolding is_line
is_line-append String.[] b ha hb = rw nil-append hb
is_line-append (String.◌∷◌ c a) b ha hb =
    let (first, rest) = and_parts (not (eqb (code c) 10)) (is_line a) ha in
    rw (cons-append c a b, is_line) (rw (first, is_line-append a b rest hb))

is_line-Lacks : (s : String) → is_line s ≡ true → Lacks 10 s
unfolding is_line
is_line-Lacks String.[] h = tt
is_line-Lacks (String.◌∷◌ c s) h =
    let (first, rest) = and_parts (not (eqb (code c) 10)) (is_line s) h in
    (ground arith, is_line-Lacks s rest)

unfoldable pub all_lines : List String → Bool
all_lines [] = true
all_lines (line ∷ lines) = is_line line && all_lines lines

-- Splitting a text at its line feeds gives its lines.
pub split-joined :
    (line : String) (lines : List String)
    → all_lines (line ∷ lines) ≡ true
    → split 10 (joined (line ∷ lines)) ≡ line ∷ lines
unfolding joined all_lines
split-joined line [] h =
    split_lacking 10 line (is_line-Lacks line (and_parts (is_line line) true h).0)
split-joined line (next ∷ lines) h =
    let (first, rest) = and_parts (is_line line) (all_lines (next ∷ lines)) h in
    split-first "\n" line (joined (next ∷ lines)) (is_line-Lacks line first)
    ∙ ap (λ parts. line ∷ parts) (split-joined next lines rest)
