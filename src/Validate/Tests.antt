-- ===== src/Validate/Tests.antt =====
-- Validation of concrete arguments, with the ASCII part of `toLowerCase`.
use fprime_gds.Base.{
  refl, ◌≡◌, ℕ, if◌then◌else◌, leb, map, none, some, ◌&&◌, ◌∷◌, [], ◌+◌, ◌↔◌, ◌≢◌, arith,
}
use fprime_gds.Base.Text.{Text, codes, text_eq}
use fprime_gds.Validate.{
  ScalarType, CompoundType, Argument, validate_input, member_list, Fields, compound,
  find_case_insensitive, field, member, passed, scalar, end, type_limits, validate_scalar_input,
  integer_value, field_tokens, without_type, pos, ℤ, token_eq, in_limits, failed, Verdict,
}
use fprime_gds.Validate.Names.{OneOf, count_folds, Folds, find_case_insensitive_exact}
use fprime_gds.Validate.Idempotent.{validate_input_idem}
use fprime_gds.Validate.Compound.{
  depth, PresentPass, compound_passes, Distinct, validate_input-returns,
}
use fprime_gds.Base.Int.{pos, ℤ}

abbrev lower_unit : ℕ → ℕ
lower_unit c = if leb b'A' c && leb c b'Z' then c + 32 else c

abbrev ascii_lower : Text → Text
ascii_lower = map lower_unit

abbrev u8 : ScalarType
u8 = record { name = codes "U8Type"; enum_dict = none; max_length = none }

abbrev mode : ScalarType
mode = record {
  name = codes "Mode";
  enum_dict = some (codes "IDLE" ∷ codes "Busy" ∷ codes "busy" ∷ []);
  max_length = none;
}

abbrev pair : CompoundType
pair = member_list (codes "speed" ∷ codes "mode" ∷ [])

abbrev speed_only : Text → Fields
speed_only value = field (member (codes "speed")) (scalar u8 (some value) []) end

abbrev full : Argument
full =
    compound pair
      (field (member (codes "speed")) (scalar u8 (some (codes "0x1F")) [])
        (field (member (codes "mode")) (scalar mode (some (codes "idle")) []) end))
      []

abbrev settled : Argument
settled =
    compound pair
      (field (member (codes "speed")) (scalar u8 (some (codes "0x1F")) [])
        (field (member (codes "mode")) (scalar mode (some (codes "IDLE")) []) end))
      []

validate-full : validate_input ascii_lower 2 full ≡ some (passed, settled)
unfolding validate_input find_case_insensitive type_limits without_type in_limits integer_value
validate-full = refl

-- The second member is not there, and nothing says so.
validate-speed_only :
    validate_input ascii_lower 2 (compound pair (speed_only (codes "255")) [])
    ≡ some (passed, compound pair (speed_only (codes "255")) [])
unfolding validate_input find_case_insensitive type_limits without_type in_limits integer_value
validate-speed_only = refl

over_limit : (validate_scalar_input ascii_lower u8 (some (codes "256")) []).0 ≡ failed
unfolding validate_scalar_input type_limits without_type in_limits integer_value
over_limit = refl

binary_text : integer_value (some (codes " 0b101\n")) ≡ some (pos 5)
unfolding integer_value
binary_text = refl

two_folds :
    find_case_insensitive ascii_lower (some (codes "BUSY")) (codes "Busy" ∷ codes "busy" ∷ [])
    ≡ none
unfolding find_case_insensitive text_eq
two_folds = refl

u8_limits :
    type_limits (without_type (codes "U8Type"))
    ≡ some (record { lowest = pos 0; highest = pos 255 })
unfolding type_limits without_type
u8_limits = refl

find_case_insensitive_exact_example :
    (OneOf (codes "idle") (codes "IDLE" ∷ [])
      → find_case_insensitive ascii_lower (some (codes "idle")) (codes "IDLE" ∷ [])
        ≡ some (codes "idle"))
    × (¬ OneOf (codes "idle") (codes "IDLE" ∷ [])
        → count_folds ascii_lower (codes "idle") (codes "IDLE" ∷ []) ≢ 1
        → find_case_insensitive ascii_lower (some (codes "idle")) (codes "IDLE" ∷ []) ≡ none)
    × (¬ OneOf (codes "idle") (codes "IDLE" ∷ [])
        → count_folds ascii_lower (codes "idle") (codes "IDLE" ∷ []) ≡ 1
        → (r : Text) × (find_case_insensitive ascii_lower (some (codes "idle")) (codes "IDLE" ∷ [])
            ≡ some r)
          × OneOf r (codes "IDLE" ∷ [])
          × Folds ascii_lower (codes "idle") r)
find_case_insensitive_exact_example =
    find_case_insensitive_exact ascii_lower (codes "idle") (codes "IDLE" ∷ [])

validate_input_idem_example : validate_input ascii_lower 2 settled ≡ some (passed, settled)
validate_input_idem_example = validate_input_idem ascii_lower 2 full settled passed validate-full

full_returns : validate_input ascii_lower 2 full ≢ none
unfolding depth
full_returns = validate_input-returns ascii_lower 2 full (omega arith)

pair-Distinct : Distinct (field_tokens pair)
unfolding field_tokens token_eq text_eq
pair-Distinct = ((refl, tt), (tt, tt))

compound_passes_example :
    (◌≡◌ {A = Verdict} passed passed)
    ↔ PresentPass (validate_input ascii_lower 1) (field_tokens pair) (speed_only (codes "255"))
compound_passes_example =
    compound_passes ascii_lower 1 pair (speed_only (codes "255")) [] passed
      (compound pair (speed_only (codes "255")) []) pair-Distinct validate-speed_only
