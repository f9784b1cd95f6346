-- ===== src/Json/Values.antt =====
-- static/js/json.js: JSON values, the converters of flag objects and the reviver.
pub mod Numbers
pub mod Flagless
use fprime_gds.Json.Scan.{ConversionType, infinity, nan, null, number, type_key}
use fprime_gds.Json.Gate.{conversion_key}
use fprime_gds.Json.Digits.{is_digit}
use fprime_gds.Base.Decimal.{trim, big_int}
use fprime_gds.Base.Int.{ℤ}
use fprime_gds.Base.{
  Bool, Option, ◌∷◌, none, true, false, some, if◌then◌else◌, ◌==◌, not, [], ◌||◌, ◌&&◌, length,
}
use fprime_gds.Base.Text.{Text, text_eq, codes}

-- A number: the one nearest to an integer, the one that parseFloat reads from a text, and those that
-- JSON has no text for.
pub data Number : Type 0 where
  nearest : ℤ → Number
  decimal : Text → Number
  minus_zero not_a_number plus_infinity minus_infinity : Number

mutual
  pub data JsonValue : Type 0 where
    json_null : JsonValue
    json_truth : Bool → JsonValue
    json_number : Number → JsonValue
    json_big : ℤ → JsonValue
    json_string : Text → JsonValue
    json_array : Elements → JsonValue
    json_object : Members → JsonValue

  pub data Elements : Type 0 where
    no_elements : Elements
    element_then : JsonValue → Elements → Elements

  pub data Members : Type 0 where
    no_members : Members
    member_then : Text → JsonValue → Members → Members

skip_digits : Text → Text
unfolding is_digit
skip_digits [] = []
skip_digits (c ∷ cs) = let rest = skip_digits cs in if is_digit c then rest else c ∷ cs

-- One digit at least; what stands behind the digits.
digits_at_head : Text → Option Text
unfolding skip_digits
digits_at_head [] = none
digits_at_head (c ∷ cs) = if is_digit c then some (skip_digits cs) else none

-- ([eE][+-]?\d+)?$
exponent_ends : Text → Bool
unfolding digits_at_head
exponent_ends [] = true
exponent_ends (c ∷ []) = false
exponent_ends (c ∷ s ∷ cs) =
    (c == b'e' || c == b'E')
    && elim (digits_at_head (if s == b'+' || s == b'-' then cs else s ∷ cs)) [
      | none ↦ false
      | some rest ↦ length rest == 0
    ]

-- (\.\d+)?([eE][+-]?\d+)?$
fraction_ends : Text → Bool
unfolding exponent_ends
fraction_ends [] = true
fraction_ends (c ∷ cs) =
    if c == b'.'
    then elim (digits_at_head cs) [ none ↦ false | some rest ↦ exponent_ends rest ]
    else exponent_ends (c ∷ cs)

-- (0|[1-9]\d*) and what follows
integer_ends : Text → Bool
unfolding fraction_ends
integer_ends [] = false
integer_ends (c ∷ cs) =
    if c == b'0' then fraction_ends cs else is_digit c && fraction_ends (skip_digits cs)

-- JSON_NUMBER.test(t)
pub is_json_number : Text → Bool
unfolding integer_ends
is_json_number [] = false
is_json_number (c ∷ cs) = if c == b'-' then integer_ends cs else integer_ends (c ∷ cs)

-- t.search(/[.eE]/) !== -1
pub has_float_unit : Text → Bool
has_float_unit [] = false
has_float_unit (c ∷ cs) = (c == b'.' || c == b'e' || c == b'E') || has_float_unit cs

-- String(n) of the number nearest to an integer is `show_nearest`.
module _ (show_nearest : ℤ → Text) where
  -- The integer case: the number if it prints as the text, and the BigInt else.
  pub integer_of : Text → Option ℤ → Option JsonValue
  unfolding text_eq
  integer_of t none = none
  integer_of t (some z) =
      some (if text_eq t (show_nearest z) then json_number (nearest z) else json_big z)

  -- stringToNumber, `none` for the SyntaxError.
  pub string_to_number : Text → Option JsonValue
  unfolding is_json_number has_float_unit integer_of
  string_to_number value =
      let t = trim value in
      if not (is_json_number t)
      then none
      else if has_float_unit t
      then some (json_number (decimal t))
      else if text_eq t (codes "-0")
      then some (json_number minus_zero)
      else integer_of t (big_int t)

-- stringToInfinity
pub string_to_infinity : Text → Option JsonValue
unfolding text_eq
string_to_infinity value =
    let t = trim value in
    if text_eq t (codes "Infinity")
    then some (json_number plus_infinity)
    else if text_eq t (codes "-Infinity")
    then some (json_number minus_infinity)
    else none

unfoldable pub find_json : Text → Members → Option JsonValue
unfolding text_eq
find_json k no_members = none
find_json k (member_then j v ms) = if text_eq j k then some v else find_json k ms

-- CONVERSION_MAP.has and get, on a text
conversion_of : Text → Option ConversionType
unfolding text_eq
conversion_of t =
    if text_eq t (type_key infinity)
    then some infinity
    else if text_eq t (type_key nan)
    then some nan
    else if text_eq t (type_key null)
    then some null
    else if text_eq t (type_key number)
    then some number
    else none

conversion_value : Option JsonValue → Option ConversionType
unfolding conversion_of
conversion_value (some (json_string t)) = conversion_of t
conversion_value _ = none

-- The conversion that an object with these members asks for.
pub flag_of : Members → Option ConversionType
unfolding conversion_value find_json
flag_of ms = conversion_value (find_json conversion_key ms)

or_unchanged : Option JsonValue → JsonValue → JsonValue
or_unchanged none v = v
or_unchanged (some w) v = w

module _ (show_nearest : ℤ → Text) where
  converted : ConversionType → Text → Option JsonValue
  unfolding string_to_number string_to_infinity
  converted infinity t = string_to_infinity t
  converted nan t = some (json_number not_a_number)
  converted null t = some json_null
  converted number t = string_to_number show_nearest t

  -- The conversions that are functions take the text of "value", if it is one.
  convert_text : ConversionType → Option JsonValue → JsonValue → JsonValue
  unfolding converted or_unchanged
  convert_text c (some (json_string t)) v = or_unchanged (converted c t) v
  convert_text c _ v = v

  convert_flag : Option ConversionType → Members → JsonValue
  unfolding convert_text find_json
  convert_flag none ms = json_object ms
  convert_flag (some nan) ms = json_number not_a_number
  convert_flag (some null) ms = json_null
  convert_flag (some infinity) ms =
      convert_text infinity (find_json (codes "value") ms) (json_object ms)
  convert_flag (some number) ms =
      convert_text number (find_json (codes "value") ms) (json_object ms)

  -- SaferParser.reviver
  pub reviver : JsonValue → JsonValue
  unfolding convert_flag flag_of
  reviver (json_object ms) = convert_flag (flag_of ms) ms
  reviver v = v

  -- The walk of JSON.parse, which revives what stands inside first.
  mutual
    unfolding reviver

    pub revive : JsonValue → JsonValue
    revive (json_array es) = json_array (revive_elements es)
    revive (json_object ms) = reviver (json_object (revive_members ms))
    revive v = v

    revive_elements : Elements → Elements
    revive_elements no_elements = no_elements
    revive_elements (element_then v es) = element_then (revive v) (revive_elements es)

    revive_members : Members → Members
    revive_members no_members = no_members
    revive_members (member_then k v ms) = member_then k (revive v) (revive_members ms)
