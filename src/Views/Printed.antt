-- ===== src/Views/Printed.antt =====
-- static/js/vue-support/utils.js: formatHexId and the printing of times.
mod Tests
use fprime_gds.Base.{
  none, some, [], ◌∷◌, ◌++◌, ℕ, suc, zero, Option, if◌then◌else◌, ltb, ◌+◌, ◌-◌, ◌/◌, ◌%◌, ◌==◌,
}
use fprime_gds.Base.Text.{Text, codes}
use fprime_gds.Base.Decimal.{show_ℕ}
use fprime_gds.History.{Time, time_to_date}

hex_unit : ℕ → ℕ
hex_unit d = if ltb d 10 then b'0' + d else b'a' + (d - 10)

-- The digits of `n` to the base 16 in front of `rest`; the fuel bounds their number.
hex_onto : ℕ → ℕ → Text → Text
unfolding hex_unit
hex_onto zero n rest = rest
hex_onto (suc fuel) n rest =
    let here = hex_unit (n % 16) ∷ rest in
    let more = hex_onto fuel (n / 16) here in if ltb n 16 then here else more

-- BigInt(id).toString(16)
pub show_hex : ℕ → Text
unfolding hex_onto
show_hex n = hex_onto (suc n) n []

unfoldable pub format_hex_id : Option ℕ → Text
unfolding show_hex
format_hex_id none = []
format_hex_id (some id) = codes "0x" ++ show_hex id

-- timeToStringDefault, on the base and the parts of a time; `date_text` prints the milliseconds.
time_to_string_default : (ℕ → Text) → ℕ → Time → Text
unfolding show_ℕ
time_to_string_default date_text base t =
    if base == 2
    then date_text (time_to_date t)
    else show_ℕ t.seconds ++ (codes "." ++ show_ℕ t.microseconds)

-- timeToString; `time_fn` is config.timeToStringFn, where it is a function.
pub time_to_string : Option (ℕ → Time → Text) → (ℕ → Text) → ℕ → Time → Text
unfolding time_to_string_default
time_to_string none date_text base t = time_to_string_default date_text base t
time_to_string (some time_fn) date_text base t = time_fn base t
