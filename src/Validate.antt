-- ===== src/Validate.antt =====
-- static/js/validate.js: the validation of command arguments. `toLowerCase` is the parameter
-- `lower`. A scalar value is `null` or a text, as the input fields of the page give it.
mod Tests
pub mod Inputs
pub mod Names
pub mod Scalar
pub mod Integers
pub mod Access
pub mod Compound
pub mod Idempotent
pub use fprime_gds.Validate.Inputs.{Limits}
unfoldable pub use fprime_gds.Validate.Inputs.{
  contains, case_matches, only_one, find_case_insensitive, without_type, signed_limits,
  unsigned_limits, type_limits, in_limits, integer_value, limits_error, text_fits, text_error,
  float_head, signed_float_head, reads_float,
}
use fprime_gds.Base.{
  ℕ, Option, List, Bool, ◌∷◌, ◌^◌, ◌++◌, false, if◌then◌else◌, some, ◌-◌, [], true, ◌||◌, none,
  drop, not, leb, ◌==◌, ◌&&◌, length, suc, map, ◌>>=◌, ◌+◌, zero,
}
use fprime_gds.Base.Text.{Text, codes, text_eq, includes, is_prefix, join}
use fprime_gds.Base.Int.{ℤ, pos, negsuc, ltb_ℤ}
use fprime_gds.Base.Decimal.{show_ℕ, show_ℤ, big_int, trim_start}

-- A key of `argument.value`: the name of a member, or the index of an element.
pub data Token : Type 0 where
  member : Text → Token
  element : ℕ → Token

pub record ScalarType : Type 0 where
  pub name : Text
  pub enum_dict : Option (List Text)
  pub max_length : Option ℕ

-- MEMBER_LIST, by its names, or LENGTH.
pub data CompoundType : Type 0 where
  member_list : List Text → CompoundType
  array : ℕ → CompoundType

-- An argument holds its value, and the error of its last validation.
mutual
  pub data Argument : Type 0 where
    scalar : ScalarType → Option Text → Text → Argument
    compound : CompoundType → Fields → Text → Argument

  pub data Fields : Type 0 where
    end : Fields
    field : Token → Argument → Fields → Fields

-- What a validation returns: `unset` is the `null` of a Boolean without a value.
pub data Verdict : Type 0 where
  passed failed unset : Verdict

abbrev pub from_test : Bool → Verdict
from_test true = passed
from_test false = failed

-- The error that a failed test leaves, `""` otherwise.
abbrev pub error_of : Bool → Text → Text
error_of true e = []
error_of false e = e

module _ (lower : Text → Text) where
  -- The answer of `validate_enum_input`, from the value that `find_case_insensitive` returned.
  enum_answer : ScalarType → List Text → Option Text → Option Text → Verdict × Argument
  enum_answer t possible value none =
      (failed, scalar t value (codes "Supply one of: " ++ join (codes " ") possible))
  enum_answer t possible value (some found) = (passed, scalar t (some found) [])

  pub validate_enum_input : ScalarType → List Text → Option Text → Verdict × Argument
  unfolding enum_answer
  validate_enum_input t possible value =
      enum_answer t possible value (find_case_insensitive lower value possible)

  -- value == null ? null : ["yes", …].indexOf(value.toString().toLowerCase()) >= 0
  bool_verdict : Option Text → Verdict
  bool_verdict none = unset
  bool_verdict (some v) =
      from_test (contains (lower v) (codes "yes" ∷ codes "no" ∷ codes "true" ∷ codes "false" ∷ []))

  -- The branches behind the integer types.
  validate_other : ScalarType → Option Text → Text → Verdict × Argument
  unfolding bool_verdict
  validate_other t value error =
      if includes (codes "String") t.name
      then (let ok = text_fits t.max_length value in
          (from_test ok, scalar t value (error_of ok (text_error t.max_length))))
      else if contains t.name (codes "F32Type" ∷ codes "F64Type" ∷ [])
      then (let ok = reads_float value in
          (from_test ok, scalar t value (error_of ok (codes "Supply floating point number"))))
      else if text_eq t.name (codes "BoolType")
      then (bool_verdict value, scalar t value error)
      else (passed, scalar t value [])

  validate_integer : ScalarType → Limits → Option Text → Verdict × Argument
  validate_integer t l value =
      let ok = in_limits l (integer_value value) in
      (from_test ok, scalar t value (error_of ok (limits_error (without_type t.name) l)))

  integer_or_other : ScalarType → Option Limits → Option Text → Text → Verdict × Argument
  unfolding validate_integer validate_other
  integer_or_other t none value error = validate_other t value error
  integer_or_other t (some l) value error = validate_integer t l value

  enum_or_other : ScalarType → Option (List Text) → Option Text → Text → Verdict × Argument
  unfolding validate_enum_input integer_or_other
  enum_or_other t (some possible) value error = validate_enum_input t possible value
  enum_or_other t none value error =
      integer_or_other t (type_limits (without_type t.name)) value error

  pub validate_scalar_input : ScalarType → Option Text → Text → Verdict × Argument
  unfolding enum_or_other
  validate_scalar_input t value error = enum_or_other t t.enum_dict value error

unfoldable pub token_eq : Token → Token → Bool
unfolding text_eq
token_eq (member s) (member t) = text_eq s t
token_eq (element i) (element j) = i == j
token_eq (member s) (element j) = false
token_eq (element i) (member t) = false

-- `token in argument.value` and `argument.value[token]`
unfoldable pub find_field : Token → Fields → Option Argument
unfolding token_eq
find_field t end = none
find_field t (field u a fs) = if token_eq t u then some a else find_field t fs

-- The argument object at a key after its validation changed it.
unfoldable pub set_field : Token → Argument → Fields → Fields
unfolding token_eq
set_field t a end = end
set_field t a (field u b fs) = if token_eq t u then field u a fs else field u b (set_field t a fs)

element_tokens : ℕ → ℕ → List Token
element_tokens i zero = []
element_tokens i (suc n) = element i ∷ element_tokens (i + 1) n

-- expected_field_tokens
unfoldable pub field_tokens : CompoundType → List Token
unfolding element_tokens
field_tokens (member_list names) = map member names
field_tokens (array n) = element_tokens 0 n

unfoldable pub show_token : Token → Text
unfolding show_ℕ
show_token (member t) = t
show_token (element i) = show_ℕ i

-- valid &&= current
abbrev pub and_verdict : Verdict → Verdict → Verdict
and_verdict passed v = v
and_verdict failed v = failed
and_verdict unset v = unset

-- What the loop over the tokens changes.
pub record Progress : Type 0 where
  pub valid : Verdict
  pub errors : List Text
  pub fields : Fields

pub missing : Token → Progress → Progress
unfolding show_token
missing t p = record p {
  errors = p.errors ++ (codes "Missing field: " ++ show_token t ++ codes ".") ∷ [];
}

unfoldable pub is_passed : Verdict → Bool
is_passed passed = true
is_passed failed = false
is_passed unset = false

pub validated : Token → Verdict × Argument → Progress → Progress
unfolding show_token set_field is_passed
validated t (v, a) p = record {
  valid = and_verdict p.valid v;
  errors =
      if is_passed v
      then p.errors
      else p.errors ++ (codes "Error in field/index: " ++ show_token t ++ codes ".") ∷ [];
  fields = set_field t a p.fields;
}

-- The loop of `validate_array_or_struct_input`; `validate` is the call of `validate_input`.
pub validate_tokens :
    (Argument → Option (Verdict × Argument)) → List Token → Progress → Option Progress
unfolding missing validated find_field
validate_tokens validate [] p = some p
validate_tokens validate (t ∷ ts) p = elim (find_field t p.fields) [
  | none ↦ validate_tokens validate ts (missing t p)
  | some a ↦ validate a >>= λ r. validate_tokens validate ts (validated t r p)
]

pub validate_array_or_struct_input :
    (Argument → Option (Verdict × Argument)) → CompoundType → Fields → Option (Verdict × Argument)
unfolding validate_tokens field_tokens join is_passed
validate_array_or_struct_input validate t fs = do
  p ←
      validate_tokens validate (field_tokens t)
        (record { valid = passed; errors = []; fields = fs })
  some (p.valid, compound t p.fields (error_of (is_passed p.valid) (join (codes " ") p.errors)))

-- `none` when the fuel, which bounds the depth of the argument, runs out.
module _ (lower : Text → Text) where
  pub validate_input : ℕ → Argument → Option (Verdict × Argument)
  unfolding validate_scalar_input validate_array_or_struct_input
  validate_input zero a = none
  validate_input (suc fuel) (scalar t value error) =
      some (validate_scalar_input lower t value error)
  validate_input (suc fuel) (compound t fs error) =
      validate_array_or_struct_input (validate_input fuel) t fs
