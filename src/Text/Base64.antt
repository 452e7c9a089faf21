-- ===== src/Text/Base64.antt =====
-- base64.StdEncoding. `base64_decode` drops the error, as `base64decode` of
-- controllers/synapse/synapse/synapse_postgrescluster.go does, and keeps what was decoded before it.
use synapse_operator.Base.{
  ℕ, ◌+◌, ◌-◌, ◌*◌, ◌/◌, ◌%◌, ◌<◌, String, ◌≡◌, refl, false, ◌&&◌, Option, none, some, List, [],
  ◌∷◌, arith, eqb, ltb, leb, if◌then◌else◌,
}
use synapse_operator.Text.Bytes.{bytes, text_of, AllBytes, text_of-bytes, bytes-text_of}

-- The character of a six-bit value, and `=`.
symbol : ℕ → ℕ
symbol n =
    if ltb n 26
    then n + 65
    else if ltb n 52
    then n + 71
    else if ltb n 62
    then n - 4
    else if eqb n 62
    then 43
    else 47

abbrev pad : ℕ
pad = 61

sextet : ℕ → Option ℕ
sextet c =
    if leb 65 c && leb c 90
    then some (c - 65)
    else if leb 97 c && leb c 122
    then some (c - 71)
    else if leb 48 c && leb c 57
    then some (c + 4)
    else if eqb c 43
    then some 62
    else if eqb c 47
    then some 63
    else none

encode : List ℕ → List ℕ
encode [] = []
encode (a ∷ []) = symbol (a / 4) ∷ symbol (a % 4 * 16) ∷ pad ∷ pad ∷ []
encode (a ∷ (b ∷ [])) =
    symbol (a / 4) ∷ symbol (a % 4 * 16 + b / 16) ∷ symbol (b % 16 * 4) ∷ pad ∷ []
encode (a ∷ (b ∷ (c ∷ rest))) =
    symbol (a / 4)
    ∷ symbol (a % 4 * 16 + b / 16)
    ∷ symbol (b % 16 * 4 + c / 64)
    ∷ symbol (c % 64)
    ∷ encode rest

-- The bytes of one quantum: of two values, of three, or of four with what follows.
two : Option ℕ → Option ℕ → List ℕ
two (some p) (some q) = (p * 4 + q / 16) ∷ []
two _ _ = []

three : Option ℕ → Option ℕ → Option ℕ → List ℕ
three (some p) (some q) (some r) = (p * 4 + q / 16) ∷ (q % 16 * 16 + r / 4) ∷ []
three _ _ _ = []

four : Option ℕ → Option ℕ → Option ℕ → Option ℕ → List ℕ → List ℕ
four (some p) (some q) (some r) (some s) rest =
    (p * 4 + q / 16) ∷ (q % 16 * 16 + r / 4) ∷ (r % 4 * 64 + s) ∷ rest
four _ _ _ _ _ = []

-- Decoding stops at the first malformed quantum, and after a padded one.
decode : List ℕ → List ℕ
decode (a ∷ (b ∷ (c ∷ (d ∷ rest)))) =
    let more = decode rest in
    if eqb c pad
    then (if eqb d pad then two (sextet a) (sextet b) else [])
    else if eqb d pad
    then three (sextet a) (sextet b) (sextet c)
    else four (sextet a) (sextet b) (sextet c) (sextet d) more
decode _ = []

-- The decoder skips line breaks.
without_breaks : List ℕ → List ℕ
without_breaks [] = []
without_breaks (c ∷ cs) =
    let rest = without_breaks cs in if eqb c 10 then rest else if eqb c 13 then rest else c ∷ rest

unfoldable pub base64_encode : String → String
unfolding encode symbol
base64_encode s = text_of (encode (bytes s))

unfoldable pub base64_decode : String → String
unfolding decode sextet two three four without_breaks
base64_decode s = text_of (decode (without_breaks (bytes s)))

module _ (n : ℕ) (h : n < 64) where
  sextet-symbol : sextet (symbol n) ≡ some n
  unfolding sextet symbol
  sextet-symbol = ground arith

  symbol_not_pad : eqb (symbol n) pad ≡ false
  unfolding symbol
  symbol_not_pad = ground arith

  symbol-lt : symbol n < 256
  unfolding symbol
  symbol-lt = ground arith

  without_breaks-symbol :
      (cs : List ℕ) → without_breaks (symbol n ∷ cs) ≡ symbol n ∷ without_breaks cs
  unfolding symbol without_breaks
  without_breaks-symbol cs = ground arith

decode-four :
    (p q r s : ℕ) (rest : List ℕ)
    → p < 64
    → q < 64
    → r < 64
    → s < 64
    → decode (symbol p ∷ symbol q ∷ symbol r ∷ symbol s ∷ rest)
      ≡ (p * 4 + q / 16) ∷ (q % 16 * 16 + r / 4) ∷ (r % 4 * 64 + s) ∷ decode rest
unfolding decode four
decode-four p q r s rest hp hq hr hs = rw (
  symbol_not_pad r hr,
  symbol_not_pad s hs,
  sextet-symbol p hp,
  sextet-symbol q hq,
  sextet-symbol r hr,
  sextet-symbol s hs,
)

decode-three :
    (p q r : ℕ)
    → p < 64
    → q < 64
    → r < 64
    → decode (symbol p ∷ symbol q ∷ symbol r ∷ pad ∷ [])
      ≡ (p * 4 + q / 16) ∷ (q % 16 * 16 + r / 4) ∷ []
unfolding decode three
decode-three p q r hp hq hr =
    rw (symbol_not_pad r hr, sextet-symbol p hp, sextet-symbol q hq, sextet-symbol r hr)

decode-two :
    (p q : ℕ)
    → p < 64
    → q < 64
    → decode (symbol p ∷ symbol q ∷ pad ∷ pad ∷ []) ≡ (p * 4 + q / 16) ∷ []
unfolding decode two
decode-two p q hp hq = rw (sextet-symbol p hp, sextet-symbol q hq)

-- Every character of an encoded text survives the removal of line breaks.
encode_clean : (ns : List ℕ) → AllBytes ns → without_breaks (encode ns) ≡ encode ns
unfolding encode without_breaks
encode_clean [] h = refl
encode_clean (a ∷ []) h =
    rw (
      without_breaks-symbol (a / 4) (omega arith),
      without_breaks-symbol (a % 4 * 16) (omega arith),
    )
encode_clean (a ∷ (b ∷ [])) h = rw (
  without_breaks-symbol (a / 4) (omega arith),
  without_breaks-symbol (a % 4 * 16 + b / 16) (omega arith),
  without_breaks-symbol (b % 16 * 4) (omega arith),
)
encode_clean (a ∷ (b ∷ (c ∷ rest))) (ha, (hb, (hc, hr))) = rw (
  without_breaks-symbol (a / 4) (omega arith),
  without_breaks-symbol (a % 4 * 16 + b / 16) (omega arith),
  without_breaks-symbol (b % 16 * 4 + c / 64) (omega arith),
  without_breaks-symbol (c % 64) (omega arith),
  encode_clean rest hr,
)

decode-encode : (ns : List ℕ) → AllBytes ns → decode (encode ns) ≡ ns
unfolding encode decode
decode-encode [] h = refl
decode-encode (a ∷ []) h =
    rw (decode-two (a / 4) (a % 4 * 16) (omega arith) (omega arith)) (ground arith)
decode-encode (a ∷ (b ∷ [])) h =
    rw
      (decode-three (a / 4) (a % 4 * 16 + b / 16) (b % 16 * 4) (omega arith) (omega arith)
        (omega arith))
      (ground arith)
decode-encode (a ∷ (b ∷ (c ∷ rest))) (ha, (hb, (hc, hr))) =
    rw
      (
        decode-four (a / 4) (a % 4 * 16 + b / 16) (b % 16 * 4 + c / 64) (c % 64) (encode rest)
            (omega arith) (omega arith) (omega arith) (omega arith),
        decode-encode rest hr,
      )
      (ground arith)

encode-AllBytes : (ns : List ℕ) → AllBytes ns → AllBytes (encode ns)
unfolding encode
encode-AllBytes [] h = tt
encode-AllBytes (a ∷ []) h = ground (arith, symbol-lt (a / 4), symbol-lt (a % 4 * 16))
encode-AllBytes (a ∷ (b ∷ [])) h =
    ground (arith, symbol-lt (a / 4), symbol-lt (a % 4 * 16 + b / 16), symbol-lt (b % 16 * 4))
encode-AllBytes (a ∷ (b ∷ (c ∷ rest))) (ha, (hb, (hc, hr))) = (
  symbol-lt (a / 4) (omega arith),
  (
    symbol-lt (a % 4 * 16 + b / 16) (omega arith),
    (
      symbol-lt (b % 16 * 4 + c / 64) (omega arith),
      (symbol-lt (c % 64) (omega arith), encode-AllBytes rest hr),
    ),
  ),
)

-- Decoding what was encoded gives the text back, for every text of bytes.
pub base64_decode-base64_encode :
    (s : String) → AllBytes (bytes s) → base64_decode (base64_encode s) ≡ s
unfolding base64_encode base64_decode
base64_decode-base64_encode s h = rw (
  bytes-text_of (encode (bytes s)) (encode-AllBytes (bytes s) h),
  encode_clean (bytes s) h,
  decode-encode (bytes s) h,
  text_of-bytes s h,
)
