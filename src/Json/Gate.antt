-- ===== src/Json/Gate.antt =====
-- static/js/json.js: the gate in front of the scan, and `preprocess`.
pub mod Complete
pub mod Spelled
use fprime_gds.Json.Digits.{has_long_digit_run}
use fprime_gds.Json.Scan.{GateToken, gate_tokens, scan_and_replace}
use fprime_gds.Base.{
  ◌>>=◌, ℕ, if◌then◌else◌, ◌/◌, Bool, List, Option, ltb, ◌∷◌, leb, false, ◌||◌, some, ◌+◌, ◌%◌,
  ◌&&◌, ◌++◌, true, ◌-◌, [], map, take,
}
use fprime_gds.Base.Text.{Text, codes, includes, is_prefix}

-- SaferParser.CONVERSION_KEY
abbrev pub conversion_key : Text
conversion_key = codes "fprime{replacement"

-- A hexadecimal digit in lower case.
hex_digit : ℕ → ℕ
hex_digit d = if ltb d 10 then b'0' + d else b'a' + (d - 10)

-- charCodeAt(0).toString(16).padStart(2, "0"), for a unit below 256
hex_code : ℕ → Text
unfolding hex_digit
hex_code c = hex_digit (c / 16) ∷ hex_digit (c % 16) ∷ []

-- What the flag "i" of a regular expression makes equal among ASCII letters.
fold_case : ℕ → ℕ
fold_case c = if leb b'A' c && leb c b'Z' then c + 32 else c

-- One of the alternatives of KEY_ESCAPE stands at the head of `rest`.
escape_at_head : Text → Text → Bool
unfolding hex_code fold_case is_prefix
escape_at_head [] rest = false
escape_at_head (k ∷ ks) rest =
    is_prefix (codes "\\u00" ++ hex_code k) (map fold_case (take 6 rest)) || escape_at_head ks rest

-- KEY_ESCAPE.test(s)
key_escape : Text → Bool
unfolding escape_at_head
key_escape [] = false
key_escape (c ∷ cs) = escape_at_head conversion_key (c ∷ cs) || key_escape cs

pub may_contain_flag_object : Text → Bool
unfolding key_escape includes
may_contain_flag_object s = includes conversion_key s || key_escape s

-- The loop of `hasReplaceableToken` over the gate tokens.
includes_token : List GateToken → Text → Bool
includes_token [] s = false
includes_token (g ∷ gs) s = includes g.token s || includes_token gs s

pub has_replaceable_token : Text → Option Bool
unfolding includes_token includes has_long_digit_run
has_replaceable_token s = if includes_token gate_tokens s then some true else has_long_digit_run s

pub record Decision : Type 0 where
  pub may_contain_flag : Bool
  pub needs_scan : Bool

pub preprocess_decision : Text → Option Decision
unfolding may_contain_flag_object has_replaceable_token
preprocess_decision s =
    if may_contain_flag_object s
    then some (record { may_contain_flag = true; needs_scan = true })
    else (do
      r ← has_replaceable_token s
      some (record { may_contain_flag = false; needs_scan = r }))

unfoldable pub needs_preprocess : Text → Option Bool
unfolding preprocess_decision
needs_preprocess s = do d ← preprocess_decision s; some d.needs_scan

pub preprocess : Text → Option Text
unfolding needs_preprocess scan_and_replace
preprocess s = do needed ← needs_preprocess s; if needed then scan_and_replace s else some s
