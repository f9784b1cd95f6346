-- ===== src/Commanding.antt =====
-- static/addons/commanding: the values of command arguments, and how they are assigned and cleared
-- (arguments.js). The arguments are those of static/js/validate.js.
mod Tests
pub mod Squash
pub mod Display
pub mod Select
pub mod Form
pub mod Cleared
pub mod History
use fprime_gds.Base.{
  ℕ, List, Bool, Option, none, false, if◌then◌else◌, some, suc, ◌∷◌, true, ◌>>=◌, [], zero, ◌++◌,
}
use fprime_gds.Validate.{
  Argument, scalar, compound, Fields, field_tokens, find_field, set_field, CompoundType, ScalarType,
  Token, member, element, show_token,
}
use fprime_gds.Base.Text.{Text, text_eq, codes, join}
use fprime_gds.Base.Decimal.{show_ℤ}
use fprime_gds.Base.Int.{ℤ}

-- A JavaScript value. A number is an integer or NaN; `float t` is what parseFloat reads from `t`.
mutual
  pub data Value : Type 0 where
    absent : Value
    written : Text → Value
    number : Option ℤ → Value
    big : ℤ → Value
    float : Text → Value
    truth : Bool → Value
    list : Values → Value
    object : Members → Value

  pub data Values : Type 0 where
    no_values : Values
    value_then : Value → Values → Values

  pub data Members : Type 0 where
    no_members : Members
    member_then : Text → Value → Members → Members

-- FILL_NEEDED
abbrev pub fill_needed : Text
fill_needed = codes "<FILL-VALUE>"

-- get_argument_fields
abbrev pub get_argument_fields : CompoundType → List Token
get_argument_fields t = field_tokens t

show_number : Option ℤ → Text
unfolding show_ℤ
show_number none = codes "NaN"
show_number (some z) = show_ℤ z

show_truth : Bool → Text
show_truth true = codes "true"
show_truth false = codes "false"

-- value.toString(), `none` for the TypeError of null; `show_float` prints what parseFloat read. In a
-- list, null is printed as "".
module _ (show_float : Text → Text) where
  mutual
    unfolding show_number show_truth show_ℤ

    pub to_string : Value → Option Text
    to_string absent = none
    to_string (written t) = some t
    to_string (number n) = some (show_number n)
    to_string (big z) = some (show_ℤ z)
    to_string (float t) = some (show_float t)
    to_string (truth b) = some (show_truth b)
    to_string (list vs) = some (join (codes ",") (to_strings vs))
    to_string (object ms) = some (codes "[object Object]")

    to_strings : Values → List Text
    to_strings no_values = []
    to_strings (value_then v vs) =
        let rest = to_strings vs in elim (to_string v) [ none ↦ [] ∷ rest | some t ↦ t ∷ rest ]

pub nth_value : ℕ → Values → Option Value
nth_value i no_values = none
nth_value zero (value_then v vs) = some v
nth_value (suc i) (value_then v vs) = nth_value i vs

pub find_member : Text → Members → Option Value
unfolding text_eq
find_member k no_members = none
find_member k (member_then j v ms) = if text_eq j k then some v else find_member k ms

list_value : Token → Values → Option Value
unfolding nth_value
list_value (element i) vs = nth_value i vs
list_value (member t) vs = none

-- `key in value` and `value[key]` for a value's own keys; the outer `none` is the TypeError of `in`
-- on what is no object.
pub find_value : Token → Value → Option (Option Value)
unfolding list_value find_member show_token
find_value t (list vs) = some (list_value t vs)
find_value t (object ms) = some (find_member (show_token t) ms)
find_value t _ = none

-- The text that is assigned, `none` for null.
scalar_text : Option ℕ → Value → Option Text → Option (Option Text)
scalar_text max_length v none = none
scalar_text (some n) v (some t) = some (some t)
scalar_text none (written w) (some t) = some (if text_eq w fill_needed then none else some t)
scalar_text none v (some t) = some (some t)

pub missing_error : Token → Text
unfolding show_token
missing_error t = codes "Missing expected field: " ++ show_token t ++ codes "."

-- The loop over the fields; `assign` is command_argument_assignment_helper, and `none` an exception.
pub assign_tokens :
    (Argument → Value → Option Argument)
    → List Token
    → Value
    → Fields
    → List Text
    → Option (Fields × List Text)
unfolding find_value missing_error find_field set_field
assign_tokens assign [] v fs errors = some (fs, errors)
assign_tokens assign (t ∷ ts) v fs errors = find_value t v >>= λ found. elim found [
  | none ↦ assign_tokens assign ts v fs (errors ++ missing_error t ∷ [])
  | some w ↦ find_field t fs >>= λ a.
      assign a w >>= λ b. assign_tokens assign ts v (set_field t b fs) errors
]

module _ (show_float : Text → Text) where
  -- command_argument_assignment_helper; the fuel bounds the depth of the argument, and `none` is an
  -- exception or the end of the fuel. The error of a scalar stays.
  pub assign_argument : ℕ → Argument → Value → Option Argument
  unfolding scalar_text to_string assign_tokens
  assign_argument zero a v = none
  assign_argument (suc fuel) (scalar t value error) v =
      scalar_text t.max_length v (to_string show_float v) >>= λ w. some (scalar t w error)
  assign_argument (suc fuel) (compound t fs error) v =
      assign_tokens (assign_argument fuel) (get_argument_fields t) v fs [] >>= λ r.
      some (compound t r.0 (join (codes " ") r.1))

-- The loop of clear_argument.
pub clear_tokens : (Argument → Option Argument) → List Token → Fields → Option Fields
unfolding find_field set_field
clear_tokens clear [] fs = some fs
clear_tokens clear (t ∷ ts) fs =
    find_field t fs >>= λ a. clear a >>= λ b. clear_tokens clear ts (set_field t b fs)

-- Object.keys(ENUM_DICT)[0], `undefined` counting as null.
first_key : List Text → Option Text
first_key [] = none
first_key (k ∷ ks) = some k

-- A MAX_LENGTH of 0 counts as none.
is_limited : Option ℕ → Bool
is_limited none = false
is_limited (some zero) = false
is_limited (some (suc n)) = true

cleared_value : ScalarType → Option Text
unfolding is_limited first_key
cleared_value t =
    if is_limited t.max_length
    then some []
    else elim t.enum_dict [ none ↦ none | some keys ↦ first_key keys ]

pub clear_argument : ℕ → Argument → Option Argument
unfolding cleared_value clear_tokens
clear_argument zero a = none
clear_argument (suc fuel) (scalar t value error) = some (scalar t (cleared_value t) [])
clear_argument (suc fuel) (compound t fs error) =
    clear_tokens (clear_argument fuel) (get_argument_fields t) fs >>= λ gs. some (compound t gs [])
