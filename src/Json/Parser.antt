-- ===== src/Json/Parser.antt =====
-- static/js/json.js: SaferParser.parse and SaferParser.stringify.
pub mod Gated
pub mod Spelled
pub mod Printed
pub mod Exact
mod Tests
use fprime_gds.Json.Values.{
  JsonValue, Number, Elements, Members, revive, json_object, nearest, json_array, member_then,
  decimal, element_then, json_string, json_number, minus_zero, no_elements, no_members, json_big,
  not_a_number, plus_infinity, json_null, minus_infinity,
}
use fprime_gds.Json.Gate.{Decision, preprocess_decision, conversion_key}
use fprime_gds.Json.Scan.{scan_and_replace}
use fprime_gds.Base.Int.{ℤ}
use fprime_gds.Base.Text.{Text, is_prefix, text_eq, codes}
use fprime_gds.Base.Decimal.{trim_start, show_ℤ}
use fprime_gds.Base.{
  ◌>>=◌, not, refl, Bool, ◌||◌, false, ℕ, Option, suc, length, if◌then◌else◌, none, ◌∷◌, some, ◌==◌,
  drop, [], ◌++◌, zero,
}

module _ (show_nearest : ℤ → Text) (language_parse : Text → Option JsonValue) where
  -- The parsing of the converted text, with the reviver or without it.
  parse_converted : Bool → Text → Option JsonValue
  parse_converted with_reviver t =
      if with_reviver
      then (do v ← language_parse t; some (revive show_nearest v))
      else language_parse t

  decided : Decision → Text → Option JsonValue
  unfolding parse_converted scan_and_replace text_eq
  decided d s =
      if d.needs_scan
      then (do t ← scan_and_replace s; parse_converted (not (text_eq t s) || d.may_contain_flag) t)
      else parse_converted false s

  -- SaferParser.parse without a reviver of the caller, up to the text of a SyntaxError.
  pub parse : Text → Option JsonValue
  unfolding decided
  parse s = do d ← preprocess_decision s; decided d s

-- A flag object of stringify.
pub flag_object : Text → JsonValue
flag_object t = json_object (member_then conversion_key (json_string t) no_members)

-- value.toString() of a number; `show_float` prints what parseFloat has read.
module _ (show_nearest : ℤ → Text) (show_float : Text → Text) where
  number_text : Number → Text
  number_text (nearest z) = show_nearest z
  number_text (decimal t) = show_float t
  number_text minus_zero = codes "0"
  number_text not_a_number = codes "NaN"
  number_text plus_infinity = codes "Infinity"
  number_text minus_infinity = codes "-Infinity"

  -- replaceFromObject: numbers, BigInts and null are in STRINGIFY_TOKENS.
  pub replace_from_object : JsonValue → JsonValue
  unfolding number_text flag_object show_ℤ
  replace_from_object json_null = flag_object (codes "null")
  replace_from_object (json_number n) = flag_object (number_text n)
  replace_from_object (json_big z) = flag_object (show_ℤ z)
  replace_from_object v = v

  -- The walk of JSON.stringify, which replaces a value and then goes into it.
  mutual
    unfolding replace_from_object

    pub replace_all : JsonValue → JsonValue
    replace_all (json_array es) = json_array (replace_elements es)
    replace_all (json_object ms) = json_object (replace_members ms)
    replace_all v = replace_from_object v

    replace_elements : Elements → Elements
    replace_elements no_elements = no_elements
    replace_elements (element_then v es) = element_then (replace_all v) (replace_elements es)

    replace_members : Members → Members
    replace_members no_members = no_members
    replace_members (member_then k v ms) = member_then k (replace_all v) (replace_members ms)

-- What a text expects behind white space, and what follows it.
skip_white : Text → Text
unfolding trim_start
skip_white t = trim_start t

literal_then : Text → Text → Option Text
unfolding is_prefix
literal_then p t = if is_prefix p t then some (drop (length p) t) else none

-- [^"]*" : the units up to the next quote, and what follows it.
up_to_quote : Text → Option (Text × Text)
up_to_quote [] = none
up_to_quote (c ∷ cs) =
    if c == b'"' then some ([], cs) else (do r ← up_to_quote cs; some (c ∷ r.0, r.1))

closed_flag : Text × Text → Option (Text × Text)
unfolding literal_then skip_white
closed_flag ([], rest) = none
closed_flag (c ∷ t, rest) = do r ← literal_then (codes "}") (skip_white rest); some (c ∷ t, r)

-- The regular expression of postReplacer at the head of a text: its group, and what follows.
flag_at_head : Text → Option (Text × Text)
unfolding closed_flag up_to_quote
flag_at_head t = do
  a ← literal_then (codes "{") t
  b ← literal_then (codes "\"fprime{replacement\"") (skip_white a)
  c ← literal_then (codes ":") (skip_white b)
  d ← literal_then (codes "\"") (skip_white c)
  e ← up_to_quote d
  closed_flag e

-- postReplacer; the fuel bounds the units of the text.
replace_flags : ℕ → Text → Text
unfolding flag_at_head
replace_flags zero t = t
replace_flags (suc fuel) [] = []
replace_flags (suc fuel) (c ∷ cs) = elim (flag_at_head (c ∷ cs)) [
  | none ↦ c ∷ replace_flags fuel cs
  | some (t, rest) ↦ t ++ replace_flags fuel rest
]

pub post_replacer : Text → Text
unfolding replace_flags
post_replacer t = replace_flags (length t) t

-- SaferParser.stringify without a replacer of the caller.
pub stringify : (ℤ → Text) → (Text → Text) → (JsonValue → Text) → JsonValue → Text
unfolding replace_all post_replacer
stringify show_nearest show_float language_stringify v =
    post_replacer (language_stringify (replace_all show_nearest show_float v))
