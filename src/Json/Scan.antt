-- ===== src/Json/Scan.antt =====
-- static/js/json.js: `scanAndReplace`, the pass that puts flag objects in place of the tokens that
-- JavaScript's parser cannot read, with the functions that it calls.
pub mod Progress
pub mod Clean
pub mod Token
pub mod Printed
use fprime_gds.Base.{
  ℕ, zero, suc, ◌+◌, ◌-◌, ◌*◌, ◌^◌, Bool, true, false, ◌&&◌, ◌||◌, not, Option, none, some, List,
  [], ◌∷◌, ◌++◌, ltb, ◌==◌, length, get_elem?, drop, if◌then◌else◌,
}
use fprime_gds.Base.Text.{Text, codes, is_prefix, substring, concat}
use fprime_gds.Json.Digits.{is_digit}

-- The keys of CONVERSION_MAP.
pub data ConversionType : Type 0 where
  infinity nan null number : ConversionType

abbrev pub type_key : ConversionType → Text
type_key infinity = codes "INFINITY"
type_key nan = codes "NAN"
type_key null = codes "NULL"
type_key number = codes "NUMBER"

-- An entry of GATE_TOKENS.
pub record GateToken : Type 0 where
  pub token : Text
  pub conversion_type : ConversionType
  pub allows_sign : Bool

abbrev pub gate_tokens : List GateToken
gate_tokens =
    record { token = codes "NaN"; conversion_type = nan; allows_sign = false }
    ∷ record { token = codes "Infinity"; conversion_type = infinity; allows_sign = true }
    ∷ []

-- GATE_TOKEN_STARTS.has(c)
is_gate_token_start : ℕ → Bool
is_gate_token_start c = c == b'N' || c == b'I'

-- The loop of `matchGateToken` over the tokens; `rest` is the text from the index on.
unfoldable pub match_gate_tokens : List GateToken → Text → Option GateToken
match_gate_tokens [] rest = none
match_gate_tokens (g ∷ gs) rest =
    if is_prefix g.token rest then some g else match_gate_tokens gs rest

unfoldable pub match_gate_token : Text → ℕ → Option GateToken
unfolding match_gate_tokens is_prefix
match_gate_token s i = match_gate_tokens gate_tokens (drop i s)

pub record NumberScan : Type 0 where
  pub end : ℕ
  pub is_integer : Bool

-- The loop of `scanNumberToken`; the fuel bounds the units that are left.
number_units : ℕ → Text → ℕ → Bool → NumberScan
number_units zero s i is_integer = record { end = i; is_integer = is_integer }
number_units (suc fuel) s i is_integer = elim (get_elem? s i) [
  | none ↦ record { end = i; is_integer = is_integer }
  | some c ↦
      if is_digit c
      then number_units fuel s (i + 1) is_integer
      else if c == b'.' || c == b'e' || c == b'E' || c == b'+' || c == b'-'
      then number_units fuel s (i + 1) false
      else record { end = i; is_integer = is_integer }
]

pub scan_number_token : Text → ℕ → NumberScan
unfolding number_units
scan_number_token s start = number_units (length s) s start true

-- The quick loop over a string literal: a backslash takes the unit behind it along.
skip_string : ℕ → Text → ℕ → ℕ
skip_string zero s i = i
skip_string (suc fuel) s i = elim (get_elem? s i) [
  | none ↦ i
  | some c ↦ if c == b'"' then i else skip_string fuel s (if c == b'\\' then i + 2 else i + 1)
]

-- Number.MAX_SAFE_INTEGER
abbrev pub max_safe_integer : ℕ
max_safe_integer = 2 ^ 53 - 1

-- The value of a text of digits.
pub decimal : ℕ → Text → ℕ
decimal acc [] = acc
decimal acc (c ∷ cs) = decimal (acc * 10 + (c - b'0')) cs

-- token_text[0] === "-" ? token_text.substring(1) : token_text
pub unsigned : Text → Text
unsigned [] = []
unsigned (c ∷ cs) = if c == b'-' then cs else c ∷ cs

pub ends_in_digit : Text → Bool
unfolding is_digit
ends_in_digit [] = false
ends_in_digit (c ∷ []) = is_digit c
ends_in_digit (c ∷ d ∷ cs) = ends_in_digit (d ∷ cs)

has_leading_zero : Text → Bool
has_leading_zero (c ∷ d ∷ cs) = c == b'0'
has_leading_zero _ = false

-- The test in front of `emit(start, i, "NUMBER")`. The text of an integral token that ends in a
-- digit is a sign and digits, so Number.isSafeInteger(Number(text)) is the test on its value: a
-- number above 2^53 - 1 is rounded to one that is at least 2^53.
pub is_unsafe_integer : Bool → Text → Bool
unfolding unsigned ends_in_digit has_leading_zero decimal
is_unsafe_integer is_integer token_text =
    is_integer
    && ends_in_digit token_text
    && not (has_leading_zero (unsigned token_text))
    && ltb max_safe_integer (decimal 0 (unsigned token_text))

-- replacementFor: JSON.stringify of the two fields. No unit of a token needs an escape.
unfoldable pub replacement_for : ConversionType → Text → Text
replacement_for type token_text =
    codes "{\"fprime{replacement\":\""
    ++ type_key type
    ++ codes "\",\"value\":\""
    ++ token_text
    ++ codes "\"}"

-- What the loop changes besides `i`.
pub record Scan : Type 0 where
  pub copied_index : ℕ
  pub pieces : List Text

pub emit : Text → ℕ → ℕ → ConversionType → Scan → Scan
emit s token_start token_end type st = record {
  copied_index = token_end;
  pieces =
      st.pieces
      ++ substring s st.copied_index token_start
        ∷ replacement_for type (substring s token_start token_end)
        ∷ [];
}

-- The part of an iteration behind the gate tokens: a number, or one unit forward.
scan_number : Text → ℕ → ℕ → Scan → ℕ × Scan
unfolding scan_number_token is_unsafe_integer emit
scan_number s start i st =
    let scan = scan_number_token s i in
    if scan.end == start
    then (start + 1, st)
    else if is_unsafe_integer scan.is_integer (substring s start scan.end)
    then (scan.end, emit s start scan.end number st)
    else (scan.end, st)

gate_or_number : Option GateToken → Text → ℕ → ℕ → Scan → ℕ × Scan
unfolding scan_number
gate_or_number none s start i st = scan_number s start i st
gate_or_number (some g) s start i st =
    if start == i || g.allows_sign
    then (i + length g.token, emit s start (i + length g.token) g.conversion_type st)
    else scan_number s start i st

-- One iteration at unit `c`, which stands at `i`: the new `i` and the new state.
unfoldable pub scan_step : Text → ℕ → ℕ → Scan → ℕ × Scan
unfolding skip_string is_gate_token_start is_digit match_gate_token gate_or_number
scan_step s c i st =
    if c == b'"'
    then (skip_string (length s) s (i + 1) + 1, st)
    else if is_gate_token_start c || c == b'-' || is_digit c
    then (let j = if c == b'-' then i + 1 else i in gate_or_number (match_gate_token s j) s i j st)
    else (i + 1, st)

-- The loop; `none` when the fuel runs out.
scan_from : ℕ → Text → ℕ → Scan → Option Scan
scan_from zero s i st = none
scan_from (suc fuel) s i st = elim (get_elem? s i) [
  | none ↦ some st
  | some c ↦ scan_from fuel s (scan_step s c i st).0 (scan_step s c i st).1
]

-- What is returned behind the loop.
finish : Text → Scan → Text
finish s st = if st.copied_index == 0 then s else concat (st.pieces ++ drop st.copied_index s ∷ [])

abbrev started : Scan
started = record { copied_index = 0; pieces = [] }

-- One more round than the text has units is enough: `Progress.scan_and_replace-total`.
unfoldable pub scan_and_replace : Text → Option Text
unfolding scan_from finish
scan_and_replace s = elim (scan_from (length s + 1) s 0 started) [
  | none ↦ none
  | some st ↦ some (finish s st)
]
