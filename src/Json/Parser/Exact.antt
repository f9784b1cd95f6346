-- ===== src/Json/Parser/Exact.antt =====
-- static/js/json.js: integers that no number holds pass stringify and parse without a loss.
use fprime_gds.Base.{refl, some, false, ◌≡◌, ◌∷◌, [], ◌<◌, suc, ℕ, Option, ap, ◌∙◌, arith}
use fprime_gds.Base.Text.{Text, text_eq}
use fprime_gds.Base.Int.{ℤ, pos, negsuc}
use fprime_gds.Base.Decimal.{show_ℤ, show_ℕ}
use fprime_gds.Base.Decimal.RoundTrip.{AllDigits, show_ℕ-AllDigits, show_ℕ-cons}
use fprime_gds.Json.Gate.{may_contain_flag_object}
use fprime_gds.Json.Scan.{replacement_for, number, max_safe_integer}
use mathlib.Core.List.{append-nil}
use mathlib.Core.Path.{subst}
use fprime_gds.Json.Parser.Printed.{flag, end, NoQuote, flag_then, post_replacer-Printed}
use fprime_gds.Json.Parser.{
  post_replacer, parse, stringify, parse_converted, flag_object, replace_all, replace_from_object,
}
use fprime_gds.Json.Scan.Printed.{magnitude, scan_and_replace-show_ℤ}
use fprime_gds.Json.Values.{JsonValue, json_big}
use fprime_gds.Json.Values.Numbers.{number_flag, exactly, revive-number_flag}
use fprime_gds.Json.Values.Flagless.{NoFlag}
use fprime_gds.Json.Parser.Gated.{parse_always, parse-eq-parse_always}

AllDigits-NoQuote : (t : Text) → AllDigits t → NoQuote t
unfolding AllDigits NoQuote
AllDigits-NoQuote [] a = tt
AllDigits-NoQuote (c ∷ t) (e, a) = (ground (arith, e), AllDigits-NoQuote t a)

show_ℤ-NoQuote : (z : ℤ) → (c : ℕ) × (t : Text) × (show_ℤ z ≡ c ∷ t) × NoQuote (c ∷ t)
unfolding show_ℤ NoQuote
show_ℤ-NoQuote (pos n) =
    let (c, t, e) = show_ℕ-cons n in
    (c, t, e, subst NoQuote e (AllDigits-NoQuote (show_ℕ n) (show_ℕ-AllDigits n)))
show_ℤ-NoQuote (negsuc n) = (
  b'-',
  show_ℕ (suc n),
  refl,
  (refl, AllDigits-NoQuote (show_ℕ (suc n)) (show_ℕ-AllDigits (suc n))),
)

post_replacer-flag_then :
    (c : ℕ) (t : Text) → NoQuote (c ∷ t) → post_replacer (flag_then (c ∷ t) []) ≡ c ∷ t
post_replacer-flag_then c t q = post_replacer-Printed (flag c t q end) ∙ append-nil (c ∷ t)

post_replacer-show_ℤ : (z : ℤ) → post_replacer (flag_then (show_ℤ z) []) ≡ show_ℤ z
post_replacer-show_ℤ z = let (c, t, e, q) = show_ℤ-NoQuote z in rw e (post_replacer-flag_then c t q)

module _ (show_nearest : ℤ → Text) (language_parse : Text → Option JsonValue)
    (flags_only_where_seen : (s : Text) (v : JsonValue)
      → may_contain_flag_object s ≡ false
      → language_parse s ≡ some v
      → NoFlag v) where
  parse_always-show_ℤ :
      (z : ℤ)
      → max_safe_integer < magnitude z
      → language_parse (replacement_for number (show_ℤ z)) ≡ some (number_flag (show_ℤ z))
      → parse_always show_nearest language_parse (show_ℤ z) ≡ some (exactly show_nearest z)
  unfolding parse_always parse_converted
  parse_always-show_ℤ z h e =
      rw (parse_always, scan_and_replace-show_ℤ z h, e)
        (ap some (revive-number_flag show_nearest z))

  parse-show_ℤ :
      (z : ℤ)
      → max_safe_integer < magnitude z
      → language_parse (replacement_for number (show_ℤ z)) ≡ some (number_flag (show_ℤ z))
      → parse show_nearest language_parse (show_ℤ z) ≡ some (exactly show_nearest z)
  parse-show_ℤ z h e =
      parse-eq-parse_always show_nearest language_parse flags_only_where_seen (show_ℤ z)
      ∙ parse_always-show_ℤ z h e

  -- A BigInt outside of the safe range whose nearest number prints otherwise is itself again behind
  -- stringify and parse. JSON.stringify prints its flag object without spaces, JSON.parse reads the
  -- flag object of the scan, and a flag object is parsed only of a text in which the gate sees one.
  pub parse-stringify :
      (show_float : Text → Text) (language_stringify : JsonValue → Text) (z : ℤ)
      → max_safe_integer < magnitude z
      → text_eq (show_ℤ z) (show_nearest z) ≡ false
      → language_stringify (flag_object (show_ℤ z)) ≡ flag_then (show_ℤ z) []
      → language_parse (replacement_for number (show_ℤ z)) ≡ some (number_flag (show_ℤ z))
      → parse show_nearest language_parse
          (stringify show_nearest show_float language_stringify (json_big z))
        ≡ some (json_big z)
  unfolding stringify replace_all replace_from_object exactly
  parse-stringify show_float language_stringify z h n s e =
      ap (λ t. parse show_nearest language_parse (post_replacer t)) s
      ∙ ap (parse show_nearest language_parse) (post_replacer-show_ℤ z)
      ∙ parse-show_ℤ z h e
      ∙ rw n refl
