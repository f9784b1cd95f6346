-- ===== src/Commanding/Display.antt =====
-- static/addons/commanding: arguments and commands as texts (argument_display_string of
-- arguments.js, command_display_string of command-string.js).
use fprime_gds.Commanding.{Value, fill_needed, Text, Option}
use fprime_gds.Validate.{
  Argument, scalar, compound, Fields, CompoundType, ScalarType, array, member_list, find_field,
  member, field, end,
}
use fprime_gds.Base.Text.{Text, codes, join}
use fprime_gds.Base.{
  Option, ◌∷◌, some, Bool, ℕ, List, if◌then◌else◌, ◌==◌, true, false, [], suc, ◌++◌, ◌>>=◌, ltb,
  map, none, zero,
}

-- value.replace(/"/g, '\\\"')
pub escape_quotes : Text → Text
escape_quotes [] = []
escape_quotes (c ∷ cs) =
    let rest = escape_quotes cs in if c == b'"' then b'\\' ∷ b'"' ∷ rest else c ∷ rest

quoted : Option Text → Text
unfolding escape_quotes
quoted none = codes "\"\""
quoted (some t) = codes "\"" ++ escape_quotes t ++ codes "\""

-- A number that is shown is put into a text where it stands in a list; an exception is none.
shown_value : Option Value → (Value → Option Text) → Text
shown_value none show = fill_needed
shown_value (some v) show = elim (show v) [ none ↦ codes "null" | some t ↦ t ]

unset_value : Option Text → Bool
unset_value none = true
unset_value (some []) = true
unset_value (some (c ∷ cs)) = false

-- A MAX_LENGTH that is a number above 0.
has_max_length : Option ℕ → Bool
has_max_length none = false
has_max_length (some n) = ltb 0 n

pub display_scalar :
    (Argument → Option Value) → (Value → Option Text) → ScalarType → Option Text → Text → Text
unfolding quoted shown_value unset_value has_max_length
display_scalar squash show t value error =
    if has_max_length t.max_length
    then quoted value
    else if unset_value value
    then fill_needed
    else shown_value (squash (scalar t value error)) show

display_elements : (Argument → Text) → Fields → List Text
display_elements display end = []
display_elements display (field t a fs) = display a ∷ display_elements display fs

-- `none` where a member is missing.
display_members : (Argument → Text) → List Text → Fields → Option (List Text)
display_members display [] fs = some []
display_members display (k ∷ ks) fs = find_field (member k) fs >>= λ a.
    display_members display ks fs >>= λ rest. some ((k ++ codes ": " ++ display a) ∷ rest)

braced : Option (List Text) → Text
braced none = fill_needed
braced (some ts) = codes "{" ++ join (codes ", ") ts ++ codes "}"

display_compound : (Argument → Text) → CompoundType → Fields → Text
unfolding display_elements display_members braced
display_compound display (array n) fs =
    codes "[" ++ join (codes ", ") (display_elements display fs) ++ codes "]"
display_compound display (member_list names) fs = braced (display_members display names fs)

-- argument_display_string, as a text; the fuel bounds the depth of the argument.
module _ (squash : Argument → Option Value) (show : Value → Option Text) where
  pub argument_display_string : ℕ → Argument → Text
  unfolding display_scalar display_compound
  argument_display_string zero a = fill_needed
  argument_display_string (suc fuel) (scalar t value error) =
      display_scalar squash show t value error
  argument_display_string (suc fuel) (compound t fs error) =
      display_compound (argument_display_string fuel) t fs

  -- command_display_string
  pub command_display_string : ℕ → Text → List Argument → Text
  unfolding argument_display_string
  command_display_string fuel full_name args =
      join (codes ", ") (full_name ∷ map (argument_display_string fuel) args)
