-- ===== src/Go.antt =====
-- The Go values that the operator handles: errors, results `(T, error)`, string-keyed maps, and the
-- dynamic values `interface{}` that a YAML document holds.
use synapse_operator.Base.{
  ℕ, String, ◌≡◌, refl, ap, Bool, Option, none, some, List, [], ◌∷◌, arith, ◌==◌, eq_iff,
  if◌then◌else◌, ◌⊎◌, inl, inr,
}

-- An `error`: made by `errors.New`, or returned by a library.
pub data Error : Type 0 where
  new : String → Error
  external : String → Error

-- The pair `(T, error)`, of which callers use one side.
pub data Result {ℓ} (A : Type ℓ) : Type ℓ where
  ok : A → Result A
  err : Error → Result A

infixl 5 ◌>>=◌
abbrev pub ◌>>=◌ {ℓ κ} : {A : Type ℓ} {B : Type κ} → Result A → (A → Result B) → Result B
ok a >>= f = f a
err e >>= f = err e

pub Result-cases {ℓ} :
    {A : Type ℓ} (r : Result A) → ((a : A) × (r ≡ ok a)) ⊎ ((e : Error) × (r ≡ err e))
Result-cases (ok a) = inl (a, refl)
Result-cases (err e) = inr (e, refl)

abbrev ok_or {ℓ} : {A : Type ℓ} → A → Result A → A
ok_or a (ok b) = b
ok_or a (err e) = a

pub ok_inj {ℓ} : {A : Type ℓ} (a b : A) → ok a ≡ ok b → a ≡ b
ok_inj a b h = ap (ok_or a) h

-- `int` and `int64`: `negsuc n` is -(n + 1).
pub data ℤ : Type 0 where
  pos : ℕ → ℤ
  negsuc : ℕ → ℤ

-- A successful chain: its first step succeeded, and so did the rest.
pub bind_ok {ℓ κ} :
    {A : Type ℓ} {B : Type κ} (first : Result A) (rest : A → Result B) {b : B}
    → (first >>= rest) ≡ ok b
    → (a : A) × (first ≡ ok a) × (rest a ≡ ok b)
bind_ok (ok a) rest h = (a, refl, h)
bind_ok (err e) rest h = cc

-- A chain whose first step succeeds is the rest of it.
pub ok_bind {ℓ κ} :
    {A : Type ℓ} {B : Type κ} {first : Result A} (rest : A → Result B) {a : A}
    → first ≡ ok a
    → (first >>= rest) ≡ rest a
ok_bind rest h = rw h

-- `map[string]V` as an association list. The program never ranges over one.
-- `v, ok := m[k]`
unfoldable pub lookup {ℓ} : {V : Type ℓ} → String → List (String × V) → Option V
lookup k [] = none
lookup k ((j, v) ∷ m) = if j == k then some v else lookup k m

-- A dynamic value. `slice` is `[]interface{}`, `string_slice` is `[]string`, `dict` is
-- `map[interface{}]interface{}` and `string_dict` is `map[string]string`; other numbers than
-- integers are kept as their text.
mutual
  pub data Value : Type 0 where
    null : Value
    text : String → Value
    bool : Bool → Value
    int : ℤ → Value
    other : String → Value
    slice : Values → Value
    string_slice : List String → Value
    dict : Fields → Value
    string_dict : List (String × String) → Value

  pub data Values : Type 0 where
    nil : Values
    cons : Value → Values → Values

  pub data Fields : Type 0 where
    end : Fields
    field : String → Value → Fields → Fields

-- `v, ok := m[k]` and `m[k] = v` on the fields of a document.
unfoldable pub get_field : String → Fields → Option Value
get_field k end = none
get_field k (field j v m) = if j == k then some v else get_field k m

unfoldable pub set_field : String → Value → Fields → Fields
set_field k v end = field k v end
set_field k v (field j w m) = if j == k then field k v m else field j w (set_field k v m)

pub get_field-set_field :
    (k j : String) (v : Value) (m : Fields)
    → get_field j (set_field k v m) ≡ (if k == j then some v else get_field j m)
unfolding get_field set_field
get_field-set_field k j v end = refl
get_field-set_field k j v (field i w m) =
    ground (arith, eq_iff k j, eq_iff i k, eq_iff i j, get_field-set_field k j v m)
