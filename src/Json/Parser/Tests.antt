-- ===== src/Json/Parser/Tests.antt =====
-- The parser on concrete texts, with a JSON.parse that knows two values.
use fprime_gds.Json.Gate.Complete.{may_contain_flag_object-replacement_for}
use fprime_gds.Json.Parser.Exact.{parse-stringify}
use fprime_gds.Json.Scan.Printed.{magnitude}
use fprime_gds.Json.Scan.{max_safe_integer, replacement_for, number}
use fprime_gds.Json.Parser.Printed.{flag_then, Printed, NoQuote, post_replacer-Printed}
use fprime_gds.Json.Parser.{
  flag_object, stringify, parse, post_replacer, ℤ, Text, show_ℤ, revive, codes, JsonValue, json_big,
}
use fprime_gds.Json.Values.{
  json_object, member_then, json_string, no_members, JsonValue, json_truth,
}
use fprime_gds.Base.{◌<◌, arith, refl, ◌≡◌, ◌∷◌, [], some, Option, if◌then◌else◌, true, false}
use mathlib.Core.Path.{subst}
use mathlib.Core.Option.{some-injective}
use fprime_gds.Json.Values.Numbers.{number_flag, exactly, revive-number_flag}
use fprime_gds.Json.Values.Flagless.{NoFlag}
use fprime_gds.Json.Parser.Gated.{parse_always}
use fprime_gds.Json.Parser.Spelled.{parse-ungated}
use fprime_gds.Json.Gate.Spelled.{WritesKey, writes, Spelled, nil, cons, literal, escaped}
use fprime_gds.Json.Gate.{conversion_key}
use fprime_gds.Base.{inl, inr, ◌⊎◌, Bool-cases}
use fprime_gds.Base.Text.{text_eq_sound}
use fprime_gds.Json.Parser.Printed.Printed.{end, other, keyed, flag}
use fprime_gds.Base.Int.{ℤ, pos}
use fprime_gds.Base.Text.{Text, codes, text_eq}
use fprime_gds.Base.Decimal.{show_ℤ}
use fprime_gds.Json.Gate.{may_contain_flag_object}

-- Numbers print as the ten below them.
abbrev rounded : ℤ → Text
rounded z = codes "10"

-- A text with a flag object whose key has an escaped brace.
abbrev escaped_flag : Text
escaped_flag = codes "{\"fprime\\u007Breplacement\": \"12\"}"

-- A JSON.parse that knows this text alone.
tiny_parse : Text → Option JsonValue
unfolding text_eq
tiny_parse t =
    if text_eq escaped_flag t then some (number_flag (codes "12")) else some (json_truth true)

escaped_key : Spelled conversion_key (codes "fprime\\u007Breplacement")
unfolding fprime_gds.Base.Decimal.digit_value
escaped_key = cons literal (
    cons literal (
      cons literal (
        cons literal (
          cons literal (
            cons literal (
              cons (escaped refl refl refl) (
                cons literal (
                  cons literal (
                    cons literal (
                      cons literal (
                        cons literal (
                          cons literal (
                            cons literal (
                              cons literal
                                (cons literal (cons literal (cons literal nil)))))))))))))))))

tiny_parse-keys : (s : Text) (v : JsonValue) → tiny_parse s ≡ some v → NoFlag v ⊎ WritesKey s
unfolding NoFlag tiny_parse
tiny_parse-keys s v e = elim (Bool-cases (text_eq escaped_flag s)) [
  | inl same ↦ inr (
      subst WritesKey (text_eq_sound escaped_flag s same)
        (writes (codes "{\"") (codes "\": \"12\"}") escaped_key))
  | inr differs ↦ inl (subst NoFlag (some-injective (json_truth true) v (rw differs at e)) tt)
]

twelve : exactly rounded (pos 12) ≡ json_big (pos 12)
unfolding exactly show_ℤ text_eq
twelve = refl

revived_twelve : revive rounded (number_flag (show_ℤ (pos 12))) ≡ exactly rounded (pos 12)
revived_twelve = revive-number_flag rounded (pos 12)

parse-ungated_example :
    parse rounded tiny_parse escaped_flag ≡ parse_always rounded tiny_parse escaped_flag
parse-ungated_example = parse-ungated rounded tiny_parse tiny_parse-keys escaped_flag

two_digits : NoQuote (codes "12")
unfolding NoQuote
two_digits = (refl, (refl, tt))

member-Printed : Printed (codes "{\"a\":{\"fprime{replacement\":\"12\"}}") (codes "{\"a\":12}")
member-Printed = keyed refl (
    other refl
      (other refl (other refl (other refl (flag b'1' (b'2' ∷ []) two_digits (other refl end))))))

post_replacer-Printed_example :
    post_replacer (codes "{\"a\":{\"fprime{replacement\":\"12\"}}") ≡ codes "{\"a\":12}"
post_replacer-Printed_example = post_replacer-Printed member-Printed

-- 2^53 + 1, which is halfway between two numbers.
abbrev halfway : ℤ
halfway = pos 9007199254740993

even_below : ℤ → Text
even_below z = codes "9007199254740992"

flag_parse : Text → Option JsonValue
flag_parse t =
    some (
      if may_contain_flag_object t then number_flag (codes "9007199254740993") else json_truth true)

flag_parse-NoFlag :
    (s : Text) (v : JsonValue)
    → may_contain_flag_object s ≡ false
    → flag_parse s ≡ some v
    → NoFlag v
unfolding NoFlag flag_parse
flag_parse-NoFlag s v h e = subst NoFlag (some-injective (json_truth true) v (rw h at e)) tt

flag_stringify : JsonValue → Text
flag_stringify (json_object (member_then k (json_string t) no_members)) = flag_then t []
flag_stringify v = []

halfway-unsafe : max_safe_integer < magnitude halfway
halfway-unsafe = omega arith

halfway-inexact : text_eq (show_ℤ halfway) (even_below halfway) ≡ false
unfolding show_ℤ even_below text_eq
halfway-inexact = refl

halfway-stringified : flag_stringify (flag_object (show_ℤ halfway)) ≡ flag_then (show_ℤ halfway) []
unfolding flag_stringify flag_object
halfway-stringified = refl

halfway-parsed :
    flag_parse (replacement_for number (show_ℤ halfway)) ≡ some (number_flag (show_ℤ halfway))
unfolding flag_parse show_ℤ
halfway-parsed = rw (may_contain_flag_object-replacement_for number (show_ℤ halfway)) refl

parse-stringify_example :
    parse even_below flag_parse (stringify even_below (λ t. t) flag_stringify (json_big halfway))
    ≡ some (json_big halfway)
parse-stringify_example =
    parse-stringify even_below flag_parse flag_parse-NoFlag (λ t. t) flag_stringify halfway
      halfway-unsafe halfway-inexact halfway-stringified halfway-parsed
