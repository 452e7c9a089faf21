-- ===== src/Heisenbridge/Command.antt =====
-- The command line of a Heisenbridge, read back.
use Prim.Native.Char.{Char, code}
use text.Mathlib.TextLemmas.{cons-append}
use synapse_operator.Base.{
  ℕ, zero, suc, ◌+◌, String, ◌<>◌, ◌≡◌, refl, ap, ◌∙◌, Option, none, some, List, [], ◌∷◌, ◌++◌, eqb,
  arith, Bool-cases, inl, inr, if◌then◌else◌,
}
use synapse_operator.Go.{ℤ, pos, negsuc}
use synapse_operator.Api.{Heisenbridge}
use synapse_operator.Heisenbridge.Resources.{
  add_verbosity, verbosity_flags, craft_heisenbridge_command,
}

one_more : Option ℕ → Option ℕ
one_more none = none
one_more (some n) = some (suc n)

-- The number of letters of a text of `v`s.
count_v : String → Option ℕ
unfolding one_more
count_v String.[] = some 0
count_v (String.◌∷◌ c s) = let rest = count_v s in if eqb (code c) 118 then one_more rest else none

or_zero : Option ℕ → ℕ
or_zero none = 0
or_zero (some n) = n

-- The level that a flag such as `-vvv` asks for.
level_of_flag : String → ℕ
unfolding count_v or_zero
level_of_flag String.[] = 0
level_of_flag (String.◌∷◌ c s) = if eqb (code c) 45 then or_zero (count_v s) else 0

-- The level that a command asks for in the argument behind the name of the module.
unfoldable pub level_of_command : List String → ℕ
unfolding level_of_flag
level_of_command (python ∷ (m ∷ (module_name ∷ (flag ∷ rest)))) = level_of_flag flag
level_of_command _ = 0

-- A level below 1 asks for none.
unfoldable pub clamp : ℤ → ℕ
clamp (pos n) = n
clamp (negsuc n) = 0

count_v-snoc : (s : String) → count_v (s <> "v") ≡ one_more (count_v s)
unfolding count_v one_more
count_v-snoc String.[] = refl
count_v-snoc (String.◌∷◌ c s) = rw (cons-append c s "v") (elim (Bool-cases (eqb (code c) 118)) [
  | inl is_v ↦ rw is_v (ap one_more (count_v-snoc s))
  | inr other ↦ rw other
])

count_v-add_verbosity :
    (n k : ℕ) (s : String) → count_v s ≡ some k → count_v (add_verbosity n s) ≡ some (n + k)
unfolding add_verbosity one_more
count_v-add_verbosity zero k s h = h ∙ ap some (omega arith)
count_v-add_verbosity (suc n) k s h =
    count_v-add_verbosity n (suc k) (s <> "v") (count_v-snoc s ∙ ap one_more h)
    ∙ ap some (omega arith)

add_verbosity-cons :
    (n : ℕ) (c : Char) (s : String)
    → add_verbosity n (String.◌∷◌ c s) ≡ String.◌∷◌ c (add_verbosity n s)
unfolding add_verbosity
add_verbosity-cons zero c s = refl
add_verbosity-cons (suc n) c s = rw cons-append (add_verbosity-cons n c (s <> "v"))

level_of_flag-add_verbosity : (n : ℕ) → level_of_flag (add_verbosity n "-") ≡ n
unfolding level_of_flag or_zero
level_of_flag-add_verbosity n =
    ap level_of_flag (add_verbosity-cons n "-" "")
    ∙ (ap or_zero (count_v-add_verbosity n 0 "" refl) ∙ omega arith)

level_of_command-flags :
    (level : ℤ) (rest : List String)
    → level_of_command
        (("python" ∷ "-m" ∷ "heisenbridge" ∷ []) ++ (verbosity_flags level ++ "-c" ∷ rest))
      ≡ clamp level
unfolding level_of_command verbosity_flags level_of_flag clamp
level_of_command-flags (pos zero) rest = refl
level_of_command-flags (pos (suc n)) rest = level_of_flag-add_verbosity (suc n)
level_of_command-flags (negsuc n) rest = refl

-- The command asks the bridge for the verbosity level of the spec, and for none if that is not
-- positive.
pub level_of_command-craft :
    (h : Heisenbridge)
    → level_of_command (craft_heisenbridge_command h) ≡ clamp h.spec.verbose_level
unfolding craft_heisenbridge_command
level_of_command-craft h = level_of_command-flags h.spec.verbose_level _
