-- ===== src/Base/Decimal.antt =====
-- `String(n)` of an integer, and the value that BigInt reads from a text.
pub mod RoundTrip
use Prim.Native.Nat.{ℕ, zero, suc, ◌+◌, ◌-◌, ◌*◌, ◌/◌, ◌%◌}
use mathlib.Core.Bool.{Bool, ◌&&◌, ◌||◌}
use mathlib.Core.Option.{Option, none, some}
use mathlib.Core.List.{[], ◌∷◌, reverse}
use fprime_gds.Base.Tests.{ltb, leb, ◌==◌, if◌then◌else◌, ◌>>=◌}
use fprime_gds.Base.Text.{Text}
use fprime_gds.Base.Int.{ℤ, pos, negsuc, sub_ℕ}

-- The digits of `n` in front of `rest`; the fuel bounds their number.
digits_onto : ℕ → ℕ → Text → Text
digits_onto zero n rest = rest
digits_onto (suc fuel) n rest =
    let here = (b'0' + n % 10) ∷ rest in
    let more = digits_onto fuel (n / 10) here in if ltb n 10 then here else more

-- A number has at most as many digits as its value and one more.
unfoldable pub show_ℕ : ℕ → Text
unfolding digits_onto
show_ℕ n = digits_onto (suc n) n []

unfoldable pub show_ℤ : ℤ → Text
unfolding show_ℕ
show_ℤ (pos n) = show_ℕ n
show_ℤ (negsuc n) = b'-' ∷ show_ℕ (suc n)

-- The white space that `trim` takes off.
unfoldable pub is_white : ℕ → Bool
is_white c =
    (leb 9 c && leb c 13)
    || c == 32
    || c == 0xa0
    || c == 0x1680
    || (leb 0x2000 c && leb c 0x200a)
    || c == 0x2028
    || c == 0x2029
    || c == 0x202f
    || c == 0x205f
    || c == 0x3000
    || c == 0xfeff

unfoldable pub trim_start : Text → Text
unfolding is_white
trim_start [] = []
trim_start (c ∷ cs) = let rest = trim_start cs in if is_white c then rest else c ∷ cs

unfoldable pub trim : Text → Text
unfolding trim_start
trim t = reverse (trim_start (reverse (trim_start t)))

-- The value of one digit of a number in base 16 or below.
unfoldable pub digit_value : ℕ → Option ℕ
digit_value c =
    if leb b'0' c && leb c b'9'
    then some (c - b'0')
    else if leb b'a' c && leb c b'f'
    then some (c - b'a' + 10)
    else if leb b'A' c && leb c b'F'
    then some (c - b'A' + 10)
    else none

-- The value of a text of digits, `none` if another unit stands in it.
unfoldable pub digits_value : ℕ → ℕ → Text → Option ℕ
unfolding digit_value
digits_value base acc [] = some acc
digits_value base acc (c ∷ cs) =
    digit_value c >>= λ d. if ltb d base then digits_value base (acc * base + d) cs else none

-- At least one digit.
unfoldable pub number_in : ℕ → Text → Option ℕ
unfolding digits_value
number_in base [] = none
number_in base (c ∷ cs) = digits_value base 0 (c ∷ cs)

-- A decimal integer with a sign before it or not.
signed_decimal : Text → Option ℤ
unfolding number_in
signed_decimal [] = none
signed_decimal (c ∷ cs) =
    if c == b'-'
    then (do n ← number_in 10 cs; some (sub_ℕ 0 n))
    else if c == b'+'
    then (do n ← number_in 10 cs; some (pos n))
    else (do n ← number_in 10 (c ∷ cs); some (pos n))

-- BigInt(t) of a text without white space at its ends; `none` stands for the SyntaxError.
literal : Text → Option ℤ
unfolding number_in signed_decimal
literal [] = some (pos 0)
literal (c ∷ []) = signed_decimal (c ∷ [])
literal (c ∷ x ∷ cs) =
    if c == b'0' && (x == b'x' || x == b'X')
    then (do n ← number_in 16 cs; some (pos n))
    else if c == b'0' && (x == b'o' || x == b'O')
    then (do n ← number_in 8 cs; some (pos n))
    else if c == b'0' && (x == b'b' || x == b'B')
    then (do n ← number_in 2 cs; some (pos n))
    else signed_decimal (c ∷ x ∷ cs)

unfoldable pub big_int : Text → Option ℤ
unfolding literal trim
big_int t = literal (trim t)
