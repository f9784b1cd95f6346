-- ===== src/DataStore/Setup.antt =====
-- static/js/datastore.js: DataStore.setupCommandArgument, which gives the arguments of the dictionary
-- their first values and turns arrays and structures into arguments of their own.
pub mod Shaped
pub mod Values
mod Tests
use fprime_gds.Base.Int.{pos}
use fprime_gds.Commanding.Select.{last_token}
use fprime_gds.Base.Decimal.{show_ℕ}
use fprime_gds.Base.{
  if◌then◌else◌, ◌>>=◌, false, List, ℕ, Option, Bool, some, ◌∷◌, suc, ◌++◌, [], none, zero,
}
use fprime_gds.Json.Values.{
  JsonValue, Elements, Members, find_json, json_null, no_elements, json_array, Number, json_truth,
  element_then, json_number, json_string, nearest, json_big, json_object, decimal, minus_zero,
  not_a_number,
}
use fprime_gds.Base.Text.{Text, codes}

-- A type of the dictionary by the first test that it passes: ENUM_DICT, by its keys, the BoolType,
-- LENGTH, which is not 0 there, MEMBER_LIST, or none of them. Each has the DEFAULT that is read.
mutual
  pub data ArgumentType : Type 0 where
    enumeration : List Text → Option JsonValue → ArgumentType
    boolean : ArgumentType
    array_of : ℕ → ArgumentType → Option JsonValue → ArgumentType
    structure : MemberTypes → Option Members → ArgumentType
    other_type : ArgumentType

  -- MEMBER_LIST: the name of each member, its type and its description.
  pub data MemberTypes : Type 0 where
    no_types : MemberTypes
    type_then : Text → ArgumentType → Option Text → MemberTypes → MemberTypes

-- An argument behind the set-up: its name, its description, its value and its error.
mutual
  pub data SetArgument : Type 0 where
    set_argument : Text → Option Text → SetValue → Text → SetArgument

  pub data SetValue : Type 0 where
    plain : JsonValue → SetValue
    indexed : SetElements → SetValue
    named : SetMembers → SetValue

  pub data SetElements : Type 0 where
    end_elements : SetElements
    element_next : SetArgument → SetElements → SetElements

  pub data SetMembers : Type 0 where
    end_members : SetMembers
    member_next : Text → SetArgument → SetMembers → SetMembers

-- value || null; `is_zero` tells that a text reads as 0 by parseFloat.
module _ (is_zero : Text → Bool) where
  number_or_null : Number → JsonValue
  number_or_null (nearest (pos zero)) = json_null
  number_or_null (decimal t) = if is_zero t then json_null else json_number (decimal t)
  number_or_null minus_zero = json_null
  number_or_null not_a_number = json_null
  number_or_null n = json_number n

  pub or_null : JsonValue → JsonValue
  unfolding number_or_null
  or_null (json_truth false) = json_null
  or_null (json_number n) = number_or_null n
  or_null (json_big (pos zero)) = json_null
  or_null (json_string []) = json_null
  or_null v = v

first_name : List Text → JsonValue
first_name [] = json_null
first_name (k ∷ ks) = json_string k

-- DEFAULT where it is neither undefined nor null, and the first key else.
default_or_first : List Text → Option JsonValue → JsonValue
unfolding first_name
default_or_first keys none = first_name keys
default_or_first keys (some json_null) = first_name keys
default_or_first keys (some v) = v

-- value.split('.').pop() of a text, and the default of the type else.
pub enum_value : List Text → Option JsonValue → JsonValue → JsonValue
unfolding default_or_first last_token
enum_value keys default (json_string t) = json_string (last_token t)
enum_value keys default _ = default_or_first keys default

-- new Array(length).fill(value)
pub copies_of : ℕ → JsonValue → Elements
copies_of zero v = no_elements
copies_of (suc n) v = element_then v (copies_of n v)

default_elements : ℕ → Option JsonValue → JsonValue → Elements
unfolding copies_of
default_elements n (some (json_array es)) v = es
default_elements n _ v = copies_of n v

-- The values of an array: those supplied, those of DEFAULT, or copies of the one supplied.
pub array_values : ℕ → Option JsonValue → JsonValue → Elements
unfolding default_elements
array_values n default (json_array es) = es
array_values n default v = default_elements n default v

-- inputValue[name] where the name is in the object, `null` else.
pub or_default : Option JsonValue → Option JsonValue → JsonValue
or_default (some v) d = v
or_default none (some d) = d
or_default none none = json_null

pub supplied : Text → JsonValue → Option JsonValue
unfolding find_json
supplied name (json_object ms) = find_json name ms
supplied name _ = none

-- The value of a member; argument.type.DEFAULT[name] throws where there is no DEFAULT.
pub member_value : Text → Option Members → JsonValue → Option JsonValue
unfolding or_default supplied find_json
member_value name none input = none
member_value name (some ms) input = some (or_default (supplied name input) (find_json name ms))

element_suffix : ℕ → Text
unfolding show_ℕ
element_suffix i = codes "[" ++ show_ℕ i ++ codes "]"

element_description : ℕ → Option Text → Option Text
unfolding element_suffix
element_description i none = none
element_description i (some []) = some []
element_description i (some (c ∷ cs)) = some ((c ∷ cs) ++ element_suffix i)

member_description : Option Text → Option Text → Option Text
member_description (some (c ∷ cs)) outer = some (c ∷ cs)
member_description _ outer = outer

-- The loop of `values.map`; `element` sets up one element.
pub set_elements :
    (Text → Option Text → JsonValue → Option SetArgument)
    → Text
    → Option Text
    → ℕ
    → Elements
    → Option SetElements
unfolding element_suffix element_description
set_elements element name description i no_elements = some end_elements
set_elements element name description i (element_then v vs) = do
  a ← element (name ++ element_suffix i) (element_description i description) v
  rest ← set_elements element name description (suc i) vs
  some (element_next a rest)

module _ (is_zero : Text → Bool) where
  mutual
    unfolding or_null enum_value array_values set_elements member_value member_description

    -- setupCommandArgument, on the type, the name, the description and the value of an argument;
    -- `none` is a TypeError.
    pub setup_command_argument : ArgumentType → Text → Option Text → JsonValue → Option SetArgument
    setup_command_argument (enumeration keys default) name description value =
        some (
          set_argument name description (plain (enum_value keys default (or_null is_zero value)))
            [])
    setup_command_argument boolean name description value =
        some (set_argument name description (plain (json_string (codes "True"))) [])
    setup_command_argument (array_of n type default) name description value = do
      es ←
          set_elements (setup_command_argument type) name description 0
            (array_values n default (or_null is_zero value))
      some (set_argument name description (indexed es) [])
    setup_command_argument (structure types default) name description value = do
      ms ← set_members types default name description (or_null is_zero value)
      some (set_argument name description (named ms) [])
    setup_command_argument other_type name description value =
        some (set_argument name description (plain (or_null is_zero value)) [])

    -- The loop over MEMBER_LIST.
    set_members : MemberTypes → Option Members → Text → Option Text → JsonValue → Option SetMembers
    set_members no_types default name description value = some end_members
    set_members (type_then member type text types) default name description value = do
      v ← member_value member default value
      a ←
          setup_command_argument type (name ++ codes "." ++ member)
            (member_description text description) v
      rest ← set_members types default name description value
      some (member_next member a rest)
