-- ===== src/Json/Values/Numbers.antt =====
-- static/js/json.js: stringToNumber and the reviver on printed integers.
use mathlib.Core.Path.{subst}
use fprime_gds.Json.Values.{
  convert_text, converted, convert_flag, or_unchanged, find_json, conversion_value, conversion_of,
  flag_of, reviver, revive, has_float_unit, is_json_number, string_to_number, skip_digits, ℤ,
  integer_ends, integer_of, JsonValue, is_digit, fraction_ends, json_object, json_number,
  member_then, nearest, conversion_key, json_big, json_string, no_members,
}
use fprime_gds.Base.Decimal.RoundTrip.{
  AllDigits, show_ℕ-positive, trim-show_ℤ, big_int-show_ℤ, show_ℕ-AllDigits,
}
use fprime_gds.Base.Text.{Text, text_eq, codes}
use fprime_gds.Base.Decimal.{show_ℕ, show_ℤ}
use fprime_gds.Base.{
  ◌≡◌, ℕ, false, ◌<◌, suc, some, if◌then◌else◌, [], ◌∷◌, true, arith, refl, sym, zero,
}
use fprime_gds.Base.Int.{ℤ, pos, negsuc}
use fprime_gds.Json.Digits.{is_digit}
use fprime_gds.Json.Gate.{conversion_key}

skip_digits-AllDigits : (t : Text) → AllDigits t → skip_digits t ≡ []
unfolding skip_digits AllDigits is_digit
skip_digits-AllDigits [] a = refl
skip_digits-AllDigits (c ∷ t) (e, a) = ground (arith, e, skip_digits-AllDigits t a)

has_float_unit-AllDigits : (t : Text) → AllDigits t → has_float_unit t ≡ false
unfolding has_float_unit AllDigits
has_float_unit-AllDigits [] a = refl
has_float_unit-AllDigits (c ∷ t) (e, a) = ground (arith, e, has_float_unit-AllDigits t a)

-- An integer as JSON writes it: no zero in front of other digits, no minus in front of zero.
data Canonical : Text → Type 0 where
  zero_alone : Canonical (codes "0")
  positive : {d : ℕ} {ds : Text} → b'0' < d → AllDigits (d ∷ ds) → Canonical (d ∷ ds)
  negative : {d : ℕ} {ds : Text} → b'0' < d → AllDigits (d ∷ ds) → Canonical (b'-' ∷ d ∷ ds)

show_ℕ-Canonical : (n : ℕ) → Canonical (show_ℕ n)
unfolding show_ℕ
show_ℕ-Canonical zero = zero_alone
show_ℕ-Canonical (suc n) =
    let (d, ds, e, p) = show_ℕ-positive (suc n) (omega arith) in
    subst Canonical (sym e) (positive p (subst AllDigits e (show_ℕ-AllDigits (suc n))))

show_ℤ-Canonical : (z : ℤ) → Canonical (show_ℤ z)
unfolding show_ℤ
show_ℤ-Canonical (pos n) = show_ℕ-Canonical n
show_ℤ-Canonical (negsuc n) =
    let (d, ds, e, p) = show_ℕ-positive (suc n) (omega arith) in
    subst (λ t. Canonical (b'-' ∷ t)) (sym e)
      (negative p (subst AllDigits e (show_ℕ-AllDigits (suc n))))

integer_ends-positive :
    (d : ℕ) (ds : Text) → b'0' < d → AllDigits (d ∷ ds) → integer_ends (d ∷ ds) ≡ true
unfolding integer_ends AllDigits is_digit fraction_ends
integer_ends-positive d ds p (e, a) = rw (skip_digits-AllDigits ds a) (ground arith)

is_json_number-Canonical : {t : Text} → Canonical t → is_json_number t ≡ true
unfolding is_json_number integer_ends fraction_ends AllDigits
is_json_number-Canonical zero_alone = refl
is_json_number-Canonical (positive {d} {ds} p a) =
    ground (arith, a.0, integer_ends-positive d ds p a)
is_json_number-Canonical (negative {d} {ds} p a) = integer_ends-positive d ds p a

has_float_unit-Canonical : {t : Text} → Canonical t → has_float_unit t ≡ false
unfolding has_float_unit
has_float_unit-Canonical zero_alone = refl
has_float_unit-Canonical (positive {d} {ds} p a) = has_float_unit-AllDigits (d ∷ ds) a
has_float_unit-Canonical (negative {d} {ds} p a) = has_float_unit-AllDigits (d ∷ ds) a

not_minus_zero : {t : Text} → Canonical t → text_eq t (codes "-0") ≡ false
unfolding text_eq AllDigits
not_minus_zero zero_alone = refl
not_minus_zero (positive {d} {ds} p a) = ground (arith, a.0)
not_minus_zero (negative {d} {ds} p a) = ground arith

-- The value that stands for an integer: a number if it prints as the integer, a BigInt else.
unfoldable pub exactly : (ℤ → Text) → ℤ → JsonValue
unfolding text_eq
exactly show_nearest z =
    if text_eq (show_ℤ z) (show_nearest z) then json_number (nearest z) else json_big z

string_to_number-show_ℤ :
    (show_nearest : ℤ → Text) (z : ℤ)
    → string_to_number show_nearest (show_ℤ z) ≡ some (exactly show_nearest z)
unfolding string_to_number exactly integer_of
string_to_number-show_ℤ show_nearest z =
    let c = show_ℤ-Canonical z in
    rw
      (
        trim-show_ℤ z,
        is_json_number-Canonical c,
        has_float_unit-Canonical c,
        not_minus_zero c,
        big_int-show_ℤ z,
      )
      refl

-- The flag object that the scan puts in place of an integer.
unfoldable pub number_flag : Text → JsonValue
number_flag t = json_object (
    member_then conversion_key (json_string (codes "NUMBER"))
      (member_then (codes "value") (json_string t) no_members))

-- The walk of JSON.parse turns the flag object of an integer into that integer: the number if
-- String of it prints the integer, and the BigInt of the integer else.
pub revive-number_flag :
    (show_nearest : ℤ → Text) (z : ℤ)
    → revive show_nearest (number_flag (show_ℤ z)) ≡ exactly show_nearest z
unfolding number_flag revive reviver convert_flag flag_of conversion_value conversion_of find_json
    convert_text converted or_unchanged text_eq
revive-number_flag show_nearest z = rw (string_to_number-show_ℤ show_nearest z) refl
