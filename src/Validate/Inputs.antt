-- ===== src/Validate/Inputs.antt =====
-- static/js/validate.js: what an input is read as: a name up to its case, an integer and its limits, a
-- text of limited length, a floating point number. `toLowerCase` is the parameter `lower`.
use fprime_gds.Base.{
  ℕ, Option, List, Bool, ◌∷◌, ◌^◌, ◌++◌, false, if◌then◌else◌, some, ◌-◌, [], true, ◌||◌, none,
  drop, not, leb, ◌==◌, ◌&&◌, length,
}
use fprime_gds.Base.Text.{Text, codes, text_eq, is_prefix}
use fprime_gds.Base.Int.{ℤ, pos, negsuc, ltb_ℤ}
use fprime_gds.Base.Decimal.{show_ℕ, show_ℤ, big_int, trim_start}

unfoldable pub contains : Text → List Text → Bool
contains t [] = false
contains t (p ∷ ps) = text_eq p t || contains t ps

module _ (lower : Text → Text) where
  -- possible.filter(item => item.toLowerCase() === token)
  unfoldable pub case_matches : Text → List Text → List Text
  case_matches token [] = []
  case_matches token (p ∷ ps) =
      let rest = case_matches token ps in if text_eq (lower p) token then p ∷ rest else rest

  unfoldable pub only_one : List Text → Option Text
  only_one (m ∷ []) = some m
  only_one _ = none

  unfoldable pub find_case_insensitive : Option Text → List Text → Option Text
  unfolding contains case_matches only_one
  find_case_insensitive none possible = none
  find_case_insensitive (some token) possible =
      if contains token possible then some token else only_one (case_matches (lower token) possible)

-- name.replace("Type", "")
unfoldable pub without_type : Text → Text
unfolding is_prefix
without_type [] = []
without_type (c ∷ cs) =
    if is_prefix (codes "Type") (c ∷ cs) then drop 4 (c ∷ cs) else c ∷ without_type cs

pub record Limits : Type 0 where
  pub lowest : ℤ
  pub highest : ℤ

unfoldable pub signed_limits : ℕ → Limits
signed_limits n = record { lowest = negsuc (2 ^ n - 1); highest = pos (2 ^ n - 1) }

unfoldable pub unsigned_limits : ℕ → Limits
unsigned_limits n = record { lowest = pos 0; highest = pos (2 ^ n - 1) }

-- TYPE_LIMITS
unfoldable pub type_limits : Text → Option Limits
unfolding signed_limits unsigned_limits text_eq
type_limits t =
    if text_eq t (codes "I8")
    then some (signed_limits 7)
    else if text_eq t (codes "U8")
    then some (unsigned_limits 8)
    else if text_eq t (codes "I16")
    then some (signed_limits 15)
    else if text_eq t (codes "U16")
    then some (unsigned_limits 16)
    else if text_eq t (codes "I32")
    then some (signed_limits 31)
    else if text_eq t (codes "U32")
    then some (unsigned_limits 32)
    else if text_eq t (codes "I64")
    then some (signed_limits 63)
    else if text_eq t (codes "U64")
    then some (unsigned_limits 64)
    else none

-- !(value == null || value < limits[0] || value > limits[1])
unfoldable pub in_limits : Limits → Option ℤ → Bool
in_limits l none = false
in_limits l (some v) = not (ltb_ℤ v l.lowest) && not (ltb_ℤ l.highest v)

-- (argument.value == null) ? null : BigInt(argument.value), with the SyntaxError caught
unfoldable pub integer_value : Option Text → Option ℤ
unfolding big_int
integer_value none = none
integer_value (some t) = big_int t

unfoldable pub limits_error : Text → Limits → Text
unfolding is_prefix show_ℤ
limits_error t l =
    codes "Supply "
    ++ (if is_prefix (codes "U") t
        then codes "binary, octal, decimal, or hexadecimal unsigned integer"
        else codes "signed decimal integer")
    ++ codes "  between "
    ++ show_ℤ l.lowest
    ++ codes " and "
    ++ show_ℤ l.highest

-- A text that is `""`, missing or too long is refused; no MAX_LENGTH is no limit.
unfoldable pub text_fits : Option ℕ → Option Text → Bool
text_fits limit none = false
text_fits limit (some []) = false
text_fits none (some (c ∷ cs)) = true
text_fits (some n) (some (c ∷ cs)) = leb (length (c ∷ cs)) n

unfoldable pub text_error : Option ℕ → Text
unfolding show_ℕ
text_error none = codes "Supply general text of less than undefined characters"
text_error (some n) = codes "Supply general text of less than " ++ show_ℕ n ++ codes " characters"

-- The head of what parseFloat reads behind a sign: Infinity, a digit, or a point and a digit.
unfoldable pub float_head : Text → Bool
unfolding is_prefix
float_head [] = false
float_head (c ∷ []) = leb b'0' c && leb c b'9'
float_head (c ∷ d ∷ cs) =
    (leb b'0' c && leb c b'9')
    || (c == b'.' && leb b'0' d && leb d b'9')
    || is_prefix (codes "Infinity") (c ∷ d ∷ cs)

unfoldable pub signed_float_head : Text → Bool
unfolding float_head
signed_float_head [] = false
signed_float_head (c ∷ cs) = if c == b'+' || c == b'-' then float_head cs else float_head (c ∷ cs)

-- !isNaN(parseFloat(value))
unfoldable pub reads_float : Option Text → Bool
unfolding signed_float_head trim_start
reads_float none = false
reads_float (some t) = signed_float_head (trim_start t)
