-- ===== src/DataStore/Setup/Tests.antt =====
-- The set-up of arguments, and the registrations.
use Prim.Native.String.{String}
use fprime_gds.DataStore.Setup.Shaped.HasDefaults.{boolean_has}
use fprime_gds.Base.{refl, none, some, [], ◌≡◌, false, Bool, ◌∷◌}
use fprime_gds.Json.Values.{
  json_null, json_string, no_members, member_then, json_array, no_elements, element_then,
}
use fprime_gds.DataStore.Setup.{
  ArgumentType, enumeration, boolean, array_of, structure, type_then, no_types,
  setup_command_argument, set_argument, SetArgument, plain, named, indexed, member_next,
  end_members, element_next, end_elements,
}
use fprime_gds.DataStore.Setup.Shaped.{Shaped, boolean_has}
use fprime_gds.Base.Text.{Text, codes}

abbrev no_zero : Text → Bool
no_zero t = false

-- A mode with a default, and two flags.
abbrev settings_type : ArgumentType
settings_type =
    structure
      (type_then (codes "mode") (enumeration (codes "IDLE" ∷ codes "BUSY" ∷ []) none) none
        (type_then (codes "flags") (array_of 2 boolean none) none no_types))
      (some (member_then (codes "mode") (json_string (codes "Mode.BUSY")) no_members))

abbrev true_at : String → SetArgument
true_at n = set_argument (codes n) none (plain (json_string (codes "True"))) []

settings_of_null :
    setup_command_argument no_zero settings_type (codes "s") none json_null
    ≡ some (
        set_argument
          (codes "s")
          none
          (named (
            member_next
              (codes "mode")
              (set_argument (codes "s.mode") none (plain (json_string (codes "BUSY"))) [])
              (member_next
                (codes "flags")
                (set_argument
                  (codes "s.flags")
                  none
                  (indexed (
                    element_next
                      (true_at "s.flags[0]")
                      (element_next (true_at "s.flags[1]") end_elements)))
                  [])
                end_members)))
          [])
unfolding setup_command_argument fprime_gds.Base.Text.includes
settings_of_null = refl

-- An array has as many elements as the value that is supplied, whatever its LENGTH is.
one_of_two :
    setup_command_argument no_zero
      (array_of 2 boolean none)
      (codes "f")
      none
      (json_array (element_then json_null no_elements))
    ≡ some (set_argument (codes "f") none (indexed (element_next (true_at "f[0]") end_elements)) [])
unfolding setup_command_argument
one_of_two = refl
