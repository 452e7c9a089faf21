-- ===== src/Text/Number.antt =====
-- `strconv.ParseInt(s, 10, 64)`.
use Prim.Native.Char.{code}
use synapse_operator.Base.{
  ℕ, zero, suc, ◌+◌, ◌-◌, ◌*◌, String, ◌&&◌, Option, none, some, ltb, leb, eqb, if◌then◌else◌,
}
use synapse_operator.Go.{Error, external, Result, ok, err, ℤ, pos, negsuc}

-- The digits that are left, after the value of those read.
digits_value : ℕ → String → Option ℕ
digits_value n String.[] = some n
digits_value n (String.◌∷◌ c s) =
    let rest = digits_value (n * 10 + (code c - 48)) s in
    if leb 48 (code c) && leb (code c) 57 then rest else none

-- At least one digit.
magnitude : String → Option ℕ
unfolding digits_value
magnitude String.[] = none
magnitude (String.◌∷◌ c s) = digits_value 0 (String.◌∷◌ c s)

abbrev pub cutoff : ℕ
cutoff = 9223372036854775808

abbrev range_error : Error
range_error = external "strconv.ParseInt: value out of range"

abbrev syntax_error : Error
syntax_error = external "strconv.ParseInt: invalid syntax"

negated : ℕ → ℤ
negated zero = pos 0
negated (suc n) = negsuc n

signed : Option ℕ → Result ℤ
signed none = err syntax_error
signed (some n) = if ltb n cutoff then ok (pos n) else err range_error

signed_negative : Option ℕ → Result ℤ
unfolding negated
signed_negative none = err syntax_error
signed_negative (some n) = if leb n cutoff then ok (negated n) else err range_error

unfoldable pub parse_int : String → Result ℤ
unfolding magnitude signed signed_negative
parse_int String.[] = err syntax_error
parse_int (String.◌∷◌ c s) =
    if eqb (code c) 45
    then signed_negative (magnitude s)
    else if eqb (code c) 43
    then signed (magnitude s)
    else signed (magnitude (String.◌∷◌ c s))
