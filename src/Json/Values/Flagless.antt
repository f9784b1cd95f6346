-- ===== src/Json/Values/Flagless.antt =====
-- static/js/json.js: the reviver leaves a value alone in which no flag object stands.
use fprime_gds.Base.{refl, none, ◌≡◌, ap}
use fprime_gds.Json.Values.{
  revive_elements, revive_members, revive, reviver, find_json, flag_of, Members, Elements,
  JsonValue, ℤ, json_array, Text, json_object, conversion_value, conversion_key, convert_flag,
  json_truth, element_then, json_number, member_then, json_big, json_string, no_elements,
  no_members, json_null,
}
use fprime_gds.Base.Int.{ℤ}
use fprime_gds.Base.Text.{Text}
use fprime_gds.Json.Gate.{conversion_key}

-- No object inside has the key of flag objects.
unfoldable mutual
  pub NoFlag : JsonValue → Type 0
  NoFlag (json_array es) = NoFlagElements es
  NoFlag (json_object ms) = (find_json conversion_key ms ≡ none) × NoFlagMembers ms
  NoFlag v = Unit

  NoFlagElements : Elements → Type 0
  NoFlagElements no_elements = Unit
  NoFlagElements (element_then v es) = NoFlag v × NoFlagElements es

  NoFlagMembers : Members → Type 0
  NoFlagMembers no_members = Unit
  NoFlagMembers (member_then k v ms) = NoFlag v × NoFlagMembers ms

module _ (show_nearest : ℤ → Text) where
  reviver-no_flag :
      (ms : Members)
      → find_json conversion_key ms ≡ none
      → reviver show_nearest (json_object ms) ≡ json_object ms
  unfolding reviver flag_of conversion_value convert_flag
  reviver-no_flag ms h = rw h refl

  mutual
    unfolding NoFlag revive

    pub revive-NoFlag : (v : JsonValue) → NoFlag v → revive show_nearest v ≡ v
    revive-NoFlag json_null h = refl
    revive-NoFlag (json_truth b) h = refl
    revive-NoFlag (json_number n) h = refl
    revive-NoFlag (json_big z) h = refl
    revive-NoFlag (json_string t) h = refl
    revive-NoFlag (json_array es) h = ap json_array (revive_elements-NoFlag es h)
    revive-NoFlag (json_object ms) (h, k) = rw (revive_members-NoFlag ms k) (reviver-no_flag ms h)

    revive_elements-NoFlag :
        (es : Elements) → NoFlagElements es → revive_elements show_nearest es ≡ es
    revive_elements-NoFlag no_elements h = refl
    revive_elements-NoFlag (element_then v es) (h, k) =
        rw (revive-NoFlag v h, revive_elements-NoFlag es k) refl

    revive_members-NoFlag : (ms : Members) → NoFlagMembers ms → revive_members show_nearest ms ≡ ms
    revive_members-NoFlag no_members h = refl
    revive_members-NoFlag (member_then k v ms) (h, l) =
        rw (revive-NoFlag v h, revive_members-NoFlag ms l) refl
