-- ===== src/Views/Printed/Tests.antt =====
-- Ids and times as texts.
use fprime_gds.Base.{refl, some, none, ◌≡◌}
use fprime_gds.Base.Text.{codes}
use fprime_gds.Base.Decimal.{show_ℕ}
use fprime_gds.Views.Printed.{
  format_hex_id, time_to_string, show_hex, hex_onto, hex_unit, time_to_string_default,
}

hexadecimal_id : format_hex_id (some 43981) ≡ codes "0xabcd"
unfolding format_hex_id show_hex hex_onto hex_unit
hexadecimal_id = refl

-- Seven microseconds are printed like seven tenths.
microseconds : time_to_string none show_ℕ 0 (record { seconds = 5; microseconds = 7 }) ≡ codes "5.7"
unfolding time_to_string time_to_string_default show_ℕ
microseconds = refl
