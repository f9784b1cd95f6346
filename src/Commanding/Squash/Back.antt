-- ===== src/Commanding/Squash/Back.antt =====
-- static/addons/commanding/arguments.js: a number that is sent can be assigned again.
use fprime_gds.Base.{ℕ, Option, ◌<◌, suc, some}
use fprime_gds.Base.Int.{negsuc, ℤ, pos}
use fprime_gds.Commanding.{big, show_ℤ, ℤ, Text, ℕ, Option, Value, number}
use fprime_gds.Commanding.Squash.{is_prefix}
use fprime_gds.Base.Text.{is_prefix, Text}
use fprime_gds.Base.Decimal.{show_ℤ}
use fprime_gds.Json.Scan.{number}

unfoldable pub size : ℤ → ℕ
size (pos n) = n
size (negsuc n) = suc n

-- A BigInt, or a number that prints in decimal digits, which it does below 10 ^ 21.
pub data IsWhole (z : ℤ) : Value → Type 0 where
  of_big : IsWhole z (big z)
  of_number : size z < 1000000000000000000000 → IsWhole z (number (some z))
