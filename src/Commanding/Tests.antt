-- ===== src/Commanding/Tests.antt =====
-- Arguments of two members, a command of them, and the numbers that are sent.
use fprime_gds.Base.{
  inr, refl, [], Option, true, ◌∷◌, none, some, ◌≡◌, false, arith, Bool-cases, inl,
}
use fprime_gds.Commanding.{Value, big, absent, clear_argument, Text, codes, element}
use fprime_gds.Commanding.Squash.{squash_big, squash_scalar, parse_int}
use fprime_gds.Base.Int.{pos, ℤ, ◌≤ℤ◌}
use fprime_gds.Validate.Scalar.{integer_passes}
use fprime_gds.Validate.{
  Limits, Argument, scalar, compound, Fields, CompoundType, ScalarType, Token, member, member_list,
  find_field, Verdict, passed, validate_input, field, end,
}
use fprime_gds.Commanding.Squash.Sent.{squash_scalar-in_limits, unsigned}
use fprime_gds.Commanding.Cleared.{clear_argument-Reset, Reset, HasFields, listed, Single}
use fprime_gds.Commanding.Select.{Command, Commands}
use fprime_gds.Commanding.Form.{
  Form, stored, invalid, selected_command, send_command, Request, Refusal,
}
use fprime_gds.Commanding.Form.Sending.{send_command-AllPass, AllPass, send_command-unknown}
use fprime_gds.Base.Text.{Text, codes, is_prefix, text_eq}
use fprime_gds.Base.Decimal.{trim_start, big_int, is_white, trim}
use fprime_gds.Base.Store.{find_key}

abbrev same_text : Text → Text
same_text t = t

abbrev u64 : ScalarType
u64 = record { name = codes "U64Type"; enum_dict = none; max_length = none }

abbrev mode : ScalarType
mode = record {
  name = codes "Mode";
  enum_dict = some (codes "IDLE" ∷ codes "BUSY" ∷ []);
  max_length = none;
}

-- Five is meant, and a hundred and one is sent.
binary : squash_big (codes "0b101") ≡ some (big (pos 101))
unfolding squash_big is_prefix big_int trim trim_start is_white fprime_gds.Base.Decimal.number_in
    fprime_gds.Base.Decimal.digits_value fprime_gds.Base.Decimal.digit_value
binary = refl

-- Sixteen is validated, and zero is sent.
hexadecimal : parse_int 10 (codes "0x10") ≡ some (pos 0)
unfolding parse_int trim_start is_white fprime_gds.Base.Decimal.number_in
    fprime_gds.Base.Decimal.digits_value fprime_gds.Base.Decimal.digit_value
hexadecimal = refl

abbrev u64_limits : Limits
u64_limits = record { lowest = pos 0; highest = pos 18446744073709551615 }

squash_scalar-in_limits_example :
    (v : ℤ) × (squash_scalar same_text (codes "U64Type") (some (codes "12")) ≡ some (big v))
    × (big_int (codes "12") ≡ some v)
    × (pos 0 ≤ℤ v)
    × (v ≤ℤ pos 18446744073709551615)
unfolding fprime_gds.Validate.type_limits fprime_gds.Validate.without_type
    fprime_gds.Validate.integer_value big_int trim trim_start is_white
    fprime_gds.Base.Decimal.number_in fprime_gds.Base.Decimal.digits_value
    fprime_gds.Base.Decimal.digit_value text_eq is_prefix
squash_scalar-in_limits_example =
    squash_scalar-in_limits same_text u64 u64_limits (codes "12") [] refl refl
      (unsigned refl refl refl)
      ((integer_passes same_text u64 u64_limits (some (codes "12")) [] refl refl).1
        (pos 12, refl, omega arith, omega arith))

abbrev pair : CompoundType
pair = member_list (codes "count" ∷ codes "mode" ∷ [])

abbrev pair_fields : Fields
pair_fields =
    field (member (codes "count")) (scalar u64 (some (codes "12")) (codes "wrong"))
      (field (member (codes "mode")) (scalar mode (some (codes "BUSY")) []) end)

abbrev cleared_fields : Fields
cleared_fields =
    field (member (codes "count")) (scalar u64 none [])
      (field (member (codes "mode")) (scalar mode (some (codes "IDLE")) []) end)

pair_fields-HasFields :
    (u : Token)
    → listed u (fprime_gds.Validate.field_tokens pair) ≡ true
    → (a : Argument) × (find_field u pair_fields ≡ some a) × HasFields 1 a
unfolding fprime_gds.Validate.field_tokens listed HasFields find_field
pair_fields-HasFields u h =
    elim (Bool-cases (fprime_gds.Validate.token_eq u (member (codes "count")))) [
      | inl e ↦ (scalar u64 (some (codes "12")) (codes "wrong"), rw e refl, tt)
      | inr e ↦ elim (Bool-cases (fprime_gds.Validate.token_eq u (member (codes "mode")))) [
        | inl f ↦ (scalar mode (some (codes "BUSY")) [], rw (e, f) refl, tt)
        | inr f ↦ absurd (ground (arith, h, e, f))
      ]
    ]

clear_argument-Reset_example :
    (b : Argument) × (clear_argument 2 (compound pair pair_fields (codes "wrong")) ≡ some b)
    × Reset 2 (compound pair pair_fields (codes "wrong")) b
unfolding fprime_gds.Validate.field_tokens Single listed HasFields fprime_gds.Validate.token_eq
    text_eq
clear_argument-Reset_example =
    clear_argument-Reset 2 (compound pair pair_fields (codes "wrong"))
      ((refl, (refl, tt)), pair_fields-HasFields)

-- A counter and a mode, cleared.
pair_is_cleared :
    clear_argument 2 (compound pair pair_fields (codes "wrong"))
    ≡ some (compound pair cleared_fields [])
unfolding clear_argument fprime_gds.Validate.field_tokens find_field fprime_gds.Validate.set_field
    fprime_gds.Validate.token_eq text_eq
pair_is_cleared = refl

abbrev always : Argument → Option (Verdict × Argument)
always a = some (passed, a)

abbrev sends : Argument → Option Value
sends a = some absent

abbrev start : Command
start = record {
  full_name = codes "a.START";
  args = scalar u64 (some (codes "1")) [] ∷ [];
  error = [];
}

abbrev commands : Commands
commands = (codes "a.START", start) ∷ []

abbrev form : Form
form = record { selected = stored (codes "a.START"); active = false; error = [] }

abbrev sent_form : Form
sent_form = record { selected = stored (codes "a.START"); active = true; error = [] }

abbrev request : Request
request = record { address = codes "/commands/a.START"; arguments = absent ∷ [] }

send_command-AllPass_example :
    (true ≡ true)
    × ((c : Command) × (selected_command (stored (codes "a.START")) commands ≡ some c)
        × AllPass always c.args)
unfolding selected_command send_command find_key fprime_gds.Commanding.Select.names_of
    fprime_gds.Validate.find_case_insensitive fprime_gds.Validate.is_passed
    fprime_gds.Validate.contains text_eq
send_command-AllPass_example =
    send_command-AllPass same_text always sends true form sent_form commands commands request refl

abbrev unknown : Command
unknown = record { full_name = codes "a.STOP"; args = []; error = codes "Invalid command" }

unknown_command_is_sent :
    send_command same_text always sends true
      (record { selected = invalid unknown; active = false; error = [] })
      commands
    ≡ some (
      record {
        selected = invalid unknown;
        active = true;
        error = codes "a.STOP is not a command.";
      },
      commands,
      some (record { address = codes "/commands/a.STOP"; arguments = [] }),
    )
unfolding fprime_gds.Commanding.Select.names_of fprime_gds.Validate.find_case_insensitive
    fprime_gds.Validate.contains text_eq
unknown_command_is_sent =
    send_command-unknown same_text always sends (codes "a.STOP") [] false (codes "Invalid command")
      commands refl

abbrev refusal : Refusal
refusal = record { message = codes "bad"; argument_errors = codes "too large" ∷ [] }

-- While the form waits, another command is selected.
abbrev other_form : Form
other_form = record { selected = invalid unknown; active = true; error = [] }
