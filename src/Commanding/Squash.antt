-- ===== src/Commanding/Squash.antt =====
-- static/addons/commanding: what is sent of an argument (squashify_argument, serialize_arg).
pub mod Sent
pub mod Back
use fprime_gds.Commanding.{
  Value, absent, written, number, big, float, truth, list, object, Values, no_values, value_then,
  Members, no_members, member_then, ℕ, Option, Text, member, ScalarType,
}
use fprime_gds.Validate.{
  Token, token_eq, Argument, scalar, compound, Fields, CompoundType, contains, find_field, array,
  member_list, field, member, end, ScalarType,
}
use fprime_gds.Base.Decimal.{trim_start, big_int, digit_value, number_in}
use fprime_gds.Base.{
  ℕ, Option, ◌∷◌, some, List, none, if◌then◌else◌, ◌>>=◌, [], ◌==◌, drop, suc, ltb, ◌&&◌, ◌||◌,
  true, zero, false,
}
use fprime_gds.Base.Int.{sub_ℕ, ℤ, pos}
use fprime_gds.Base.Text.{is_prefix, Text, codes, text_eq}

-- The digits in base `radix` at the head of a text.
digits_head : ℕ → Text → Text
unfolding digit_value
digits_head radix [] = []
digits_head radix (c ∷ cs) =
    let rest = digits_head radix cs in
    elim (digit_value c) [ none ↦ [] | some d ↦ if ltb d radix then c ∷ rest else [] ]

-- The number behind the sign; in base 16 a leading 0x is skipped.
unsigned_digits : ℕ → Text → Text
unfolding digits_head
unsigned_digits radix (c ∷ x ∷ cs) =
    if radix == 16 && c == b'0' && (x == b'x' || x == b'X')
    then digits_head radix cs
    else digits_head radix (c ∷ x ∷ cs)
unsigned_digits radix t = digits_head radix t

negate : Option ℕ → Option ℤ
negate none = none
negate (some n) = some (sub_ℕ 0 n)

positive : Option ℕ → Option ℤ
positive none = none
positive (some n) = some (pos n)

signed_int : ℕ → Text → Option ℤ
unfolding unsigned_digits negate positive number_in
signed_int radix [] = none
signed_int radix (c ∷ cs) =
    if c == b'-'
    then negate (number_in radix (unsigned_digits radix cs))
    else if c == b'+'
    then positive (number_in radix (unsigned_digits radix cs))
    else positive (number_in radix (unsigned_digits radix (c ∷ cs)))

-- parseInt(t, radix), `none` for NaN; the 0 of "-0" counts as 0.
unfoldable pub parse_int : ℕ → Text → Option ℤ
unfolding trim_start signed_int
parse_int radix t = signed_int radix (trim_start t)

-- The branch of U64Type: BigInt takes one parameter, so the radix does not count.
unfoldable pub squash_big : Text → Option Value
squash_big t =
    if is_prefix (codes "0x") t
    then (do z ← big_int t; some (big z))
    else if is_prefix (codes "0b") t
    then (do z ← big_int (drop 2 t); some (big z))
    else if is_prefix (codes "0o") t
    then (do z ← big_int (drop 2 t); some (big z))
    else (do z ← big_int t; some (big z))

-- The branch of the smaller unsigned types.
unfoldable pub squash_unsigned : Text → Value
unfolding parse_int
squash_unsigned t =
    if is_prefix (codes "0x") t
    then number (parse_int 16 t)
    else if is_prefix (codes "0b") t
    then number (parse_int 2 (drop 2 t))
    else if is_prefix (codes "0o") t
    then number (parse_int 8 (drop 2 t))
    else number (parse_int 10 t)

-- String(value) of a scalar value.
text_of : Option Text → Text
text_of none = codes "null"
text_of (some t) = t

value_of : Option Text → Value
value_of none = absent
value_of (some t) = written t

module _ (lower : Text → Text) where
  squash_truth : Option Text → Value
  unfolding value_of
  squash_truth none = absent
  squash_truth (some t) =
      if contains (lower t) (codes "true" ∷ codes "yes" ∷ [])
      then truth true
      else if contains (lower t) (codes "false" ∷ codes "no" ∷ [])
      then truth false
      else written t

  -- The scalar branches, by the name of the type; `none` is an exception.
  unfoldable pub squash_scalar : Text → Option Text → Option Value
  unfolding squash_big squash_unsigned parse_int squash_truth text_of value_of
  squash_scalar name value =
      if contains name (codes "U64Type" ∷ [])
      then value >>= squash_big
      else if contains name (codes "U32Type" ∷ codes "U16Type" ∷ codes "U8Type" ∷ [])
      then (do t ← value; some (squash_unsigned t))
      else if contains name (codes "I64Type" ∷ [])
      then (do t ← value; z ← big_int t; some (big z))
      else if contains name (codes "I32Type" ∷ codes "I16Type" ∷ codes "I8Type" ∷ [])
      then some (number (parse_int 10 (text_of value)))
      else if contains name (codes "F64Type" ∷ codes "F32Type" ∷ [])
      then some (float (text_of value))
      else if text_eq name (codes "BoolType")
      then some (squash_truth value)
      else some (value_of value)

-- An argument as it is sent: as in the validation, or with a value that is a number already.
mutual
  pub data Held : Type 0 where
    number_held : Option ℤ → Held
    scalar_held : ScalarType → Option Text → Held
    compound_held : CompoundType → HeldFields → Held

  pub data HeldFields : Type 0 where
    no_held : HeldFields
    held_then : Token → Held → HeldFields → HeldFields

-- An argument whose scalars hold texts or null.
mutual
  pub held : Argument → Held
  held (scalar t value error) = scalar_held t value
  held (compound t fs error) = compound_held t (held_fields fs)

  pub held_fields : Fields → HeldFields
  held_fields end = no_held
  held_fields (field t a fs) = held_then t (held a) (held_fields fs)

pub find_held : Token → HeldFields → Option Held
unfolding token_eq
find_held t no_held = none
find_held t (held_then u a fs) = if token_eq t u then some a else find_held t fs

-- argument.value.map(squashify_argument)
unfoldable pub squash_elements : (Held → Option Value) → HeldFields → Option Values
squash_elements squash no_held = some no_values
squash_elements squash (held_then t a fs) =
    squash a >>= λ v. squash_elements squash fs >>= λ vs. some (value_then v vs)

-- The loop over MEMBER_LIST.
unfoldable pub squash_members : (Held → Option Value) → List Text → HeldFields → Option Members
unfolding find_held
squash_members squash [] fs = some no_members
squash_members squash (k ∷ ks) fs = find_held (member k) fs >>= λ a.
    squash a >>= λ v. squash_members squash ks fs >>= λ ms. some (member_then k v ms)

unfoldable pub squash_compound : (Held → Option Value) → CompoundType → HeldFields → Option Value
unfolding squash_elements squash_members
squash_compound squash (array n) fs = squash_elements squash fs >>= λ vs. some (list vs)
squash_compound squash (member_list names) fs =
    squash_members squash names fs >>= λ ms. some (object ms)

module _ (lower : Text → Text) where
  -- The fuel bounds the depth of the argument.
  unfoldable pub squashify_argument : ℕ → Held → Option Value
  unfolding squash_scalar squash_compound
  squashify_argument zero a = none
  squashify_argument (suc fuel) (number_held n) = some (number n)
  squashify_argument (suc fuel) (scalar_held t value) = squash_scalar lower t.name value
  squashify_argument (suc fuel) (compound_held t fs) =
      squash_compound (squashify_argument fuel) t fs

-- serialize_arg; JSON.stringify is `stringify`.
pub serialize_arg : (Value → Text) → (Held → Option Value) → Held → Option Value
serialize_arg stringify squash (number_held n) = squash (number_held n)
serialize_arg stringify squash (scalar_held t value) = squash (scalar_held t value)
serialize_arg stringify squash (compound_held t fs) =
    squash (compound_held t fs) >>= λ v. some (written (stringify v))
