-- ===== src/Commanding/Squash/Sent.antt =====
-- static/addons/commanding/arguments.js: the number that is sent is the one that was validated.
use fprime_gds.Commanding.{big, Text}
use fprime_gds.Commanding.Squash.{squash_scalar, squash_big, big_int}
use fprime_gds.Validate.{
  ScalarType, validate_scalar_input, integer_value, passed, type_limits, without_type, Limits,
  contains,
}
use fprime_gds.Validate.Scalar.{integer_passes}
use fprime_gds.Base.Int.{◌≤ℤ◌, ℤ}
use fprime_gds.Base.Text.{Text, text_eq, codes, is_prefix}
use fprime_gds.Base.{◌≡◌, none, some, false, ◌∙◌, ap, ◌>>=◌, Bool-cases, refl, inl, inr}
use fprime_gds.Base.Decimal.{big_int}

squash_big-plain :
    (t : Text)
    → is_prefix (codes "0b") t ≡ false
    → is_prefix (codes "0o") t ≡ false
    → squash_big t ≡ (big_int t >>= λ z. some (big z))
unfolding squash_big
squash_big-plain t b o = elim (Bool-cases (is_prefix (codes "0x") t)) [
  | inl x ↦ rw x refl
  | inr x ↦ rw (x, b, o) refl
]

-- A 64-bit type whose value is sent by BigInt.
pub data IsWide : ScalarType → Text → Type 0 where
  signed : {t : ScalarType} {value : Text} → t.name ≡ codes "I64Type" → IsWide t value
  unsigned :
      {t : ScalarType} {value : Text}
      → t.name ≡ codes "U64Type"
      → is_prefix (codes "0b") value ≡ false
      → is_prefix (codes "0o") value ≡ false
      → IsWide t value

pub squash_scalar-IsWide :
    (lower : Text → Text) (t : ScalarType) (value : Text)
    → IsWide t value
    → squash_scalar lower t.name (some value) ≡ (big_int value >>= λ z. some (big z))
unfolding squash_scalar contains text_eq
squash_scalar-IsWide lower t value (signed e) = rw e refl
squash_scalar-IsWide lower t value (unsigned e b o) = rw e (squash_big-plain value b o)

-- A 64-bit argument that passes its validation, and is not a U64 written in binary or octal, is sent
-- as the number that BigInt reads from its text, the one of the validation, which is within the limits
-- of its type.
pub squash_scalar-in_limits :
    (lower : Text → Text) (t : ScalarType) (l : Limits) (value error : Text)
    → t.enum_dict ≡ none
    → type_limits (without_type t.name) ≡ some l
    → IsWide t value
    → (validate_scalar_input lower t (some value) error).0 ≡ passed
    → (v : ℤ) × (squash_scalar lower t.name (some value) ≡ some (big v))
      × (big_int value ≡ some v)
      × (l.lowest ≤ℤ v)
      × (v ≤ℤ l.highest)
unfolding integer_value
squash_scalar-in_limits lower t l value error n e w p =
    let (v, r, low, high) = (integer_passes lower t l (some value) error n e).0 p in
    (v, squash_scalar-IsWide lower t value w ∙ ap (λ o. o >>= λ z. some (big z)) r, r, low, high)
