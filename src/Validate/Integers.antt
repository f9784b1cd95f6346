-- ===== src/Validate/Integers.antt =====
-- static/js/validate.js: the integer types, and which texts pass for them.
use fprime_gds.Base.Text.{Text, codes}
use fprime_gds.Base.Int.{ℤ, pos, negsuc}

-- The name of an integer type, with the lowest and the highest integer of its width.
pub data IsInteger : Text → ℤ → ℤ → Type 0 where
  u8_type : IsInteger (codes "U8Type") (pos 0) (pos 255)
  i8_type : IsInteger (codes "I8Type") (negsuc 127) (pos 127)
  u16_type : IsInteger (codes "U16Type") (pos 0) (pos 65535)
  i16_type : IsInteger (codes "I16Type") (negsuc 32767) (pos 32767)
  u32_type : IsInteger (codes "U32Type") (pos 0) (pos 4294967295)
  i32_type : IsInteger (codes "I32Type") (negsuc 2147483647) (pos 2147483647)
  u64_type : IsInteger (codes "U64Type") (pos 0) (pos 18446744073709551615)
  i64_type : IsInteger (codes "I64Type") (negsuc 9223372036854775807) (pos 9223372036854775807)
