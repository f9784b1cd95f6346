-- ===== src/Json/Digits.antt =====
-- static/js/json.js: `isDigit` and `hasLongDigitRun`, the sampled search for a long run of digits.
pub mod Runs
use fprime_gds.Base.{
  ℕ, zero, suc, ◌+◌, ◌-◌, ◌≤◌, Bool, true, false, ◌&&◌, Option, none, some, ltb, leb, length,
  get_elem?, if◌then◌else◌,
}
use fprime_gds.Base.Text.{Text}

unfoldable pub is_digit : ℕ → Bool
is_digit c = leb b'0' c && leb c b'9'

digit_unit : Option ℕ → Bool
unfolding is_digit
digit_unit none = false
digit_unit (some c) = is_digit c

-- isDigit(s[i]); false past the end
unfoldable pub is_digit_at : Text → ℕ → Bool
unfolding digit_unit
is_digit_at s i = digit_unit (get_elem? s i)

-- String(Number.MAX_SAFE_INTEGER).length
abbrev pub unsafe_digit_run_length : ℕ
unsafe_digit_run_length = 16

-- while (low > 0 && isDigit(s[low - 1])) low--;
run_low : Text → ℕ → ℕ
run_low s zero = zero
run_low s (suc low) = if is_digit_at s low then run_low s low else suc low

-- while (high + 1 < length && isDigit(s[high + 1])) high++;
run_high : ℕ → Text → ℕ → ℕ
run_high zero s high = high
run_high (suc fuel) s high =
    let more = run_high fuel s (high + 1) in
    if ltb (high + 1) (length s) && is_digit_at s (high + 1) then more else high

-- The loop of `hasLongDigitRun` at sample `i`; `none` when the fuel runs out.
sample_from : ℕ → Text → ℕ → Option Bool
sample_from zero s i = none
sample_from (suc fuel) s i =
    let low = run_low s i in
    let high = run_high (length s) s i in
    let next = sample_from fuel s (i + unsafe_digit_run_length) in
    let resume = sample_from fuel s (high + unsafe_digit_run_length) in
    if ltb i (length s)
    then if is_digit_at s i
      then if leb unsafe_digit_run_length (high - low + 1) then some true else resume
      else next
    else some false

-- One more round than the text has units is enough: `Runs.has_long_digit_run-total`.
unfoldable pub has_long_digit_run : Text → Option Bool
unfolding sample_from run_low run_high is_digit_at
has_long_digit_run s = sample_from (length s + 1) s (unsafe_digit_run_length - 1)
