-- ===== src/DataStore/Setup/Shaped.antt =====
-- static/js/datastore.js: setupCommandArgument gives each argument the shape of its type.
use fprime_gds.Json.Values.{no_elements, element_then, JsonValue, Elements, find_json, Members}
use fprime_gds.Base.{refl, none, some, ◌≡◌, List, Option, Bool, ℕ, [], ◌++◌, suc}
use fprime_gds.DataStore.Setup.{
  enumeration, boolean, array_of, structure, other_type, no_types, type_then, or_default, supplied,
  end_elements, end_members, member_next, element_next, set_elements, set_members,
  setup_command_argument, element_suffix, element_description, member_description, member_value,
  or_null, array_values, ArgumentType, Text, SetArgument, JsonValue, set_argument, MemberTypes,
  plain, Elements, indexed, Members, SetElements, json_string, named, SetMembers, show_ℕ, find_json,
}
use fprime_gds.DataStore.Setup.Values.{
  OrNull, or_null-OrNull, EnumValue, enum_value-EnumValue, ArrayValues, array_values-ArrayValues,
  MemberValue, or_default-MemberValue,
}
use fprime_gds.Base.Text.{Text, codes}
use fprime_gds.Base.Decimal.{show_ℕ}

-- Each structure of the type has an object as its DEFAULT.
mutual
  pub data HasDefaults : ArgumentType → Type 0 where
    enumeration_has : {keys : List Text} {d : Option JsonValue} → HasDefaults (enumeration keys d)
    boolean_has : HasDefaults boolean
    array_has :
        {n : ℕ} {t : ArgumentType} {d : Option JsonValue}
        → HasDefaults t
        → HasDefaults (array_of n t d)
    structure_has :
        {ts : MemberTypes} {ms : Members} → HaveDefaults ts → HasDefaults (structure ts (some ms))
    other_has : HasDefaults other_type

  pub data HaveDefaults : MemberTypes → Type 0 where
    none_have : HaveDefaults no_types
    type_has :
        {m : Text} {t : ArgumentType} {x : Option Text} {ts : MemberTypes}
        → HasDefaults t
        → HaveDefaults ts
        → HaveDefaults (type_then m t x ts)

-- An argument of a type, a name and a value that is supplied, without an error: a value that || passes
-- over is null; an array has arguments of its element type that are named by their indices, one for
-- each of its values, and a structure has its members in the order of the type.
mutual
  pub data Shaped (is_zero : Text → Bool)
      : ArgumentType → Text → JsonValue → SetArgument → Type 0 where
    choice :
        {keys : List Text} {d : Option JsonValue} {name : Text} {x : Option Text}
        {v w u : JsonValue}
        → OrNull is_zero v w
        → EnumValue keys d w u
        → Shaped is_zero (enumeration keys d) name v (set_argument name x (plain u) [])
    truth :
        {name : Text} {x : Option Text} {v : JsonValue}
        → Shaped is_zero boolean name v
            (set_argument name x (plain (json_string (codes "True"))) [])
    elements :
        {n : ℕ} {t : ArgumentType} {d : Option JsonValue} {name : Text} {x : Option Text}
        {v w : JsonValue} {vs : Elements} {es : SetElements}
        → OrNull is_zero v w
        → ArrayValues n d w vs
        → ShapedElements is_zero t name 0 vs es
        → Shaped is_zero (array_of n t d) name v (set_argument name x (indexed es) [])
    members :
        {ts : MemberTypes} {d : Members} {name : Text} {x : Option Text} {v w : JsonValue}
        {ms : SetMembers}
        → OrNull is_zero v w
        → ShapedMembers is_zero ts d name w ms
        → Shaped is_zero (structure ts (some d)) name v (set_argument name x (named ms) [])
    single :
        {name : Text} {x : Option Text} {v w : JsonValue}
        → OrNull is_zero v w
        → Shaped is_zero other_type name v (set_argument name x (plain w) [])

  pub data ShapedElements (is_zero : Text → Bool)
      : ArgumentType → Text → ℕ → Elements → SetElements → Type 0 where
    no_more :
        {t : ArgumentType} {name : Text} {i : ℕ}
        → ShapedElements is_zero t name i no_elements end_elements
    next :
        {t : ArgumentType} {name : Text} {i : ℕ} {v : JsonValue} {vs : Elements} {a : SetArgument}
        {rest : SetElements}
        → Shaped is_zero t (name ++ (codes "[" ++ show_ℕ i ++ codes "]")) v a
        → ShapedElements is_zero t name (suc i) vs rest
        → ShapedElements is_zero t name i (element_then v vs) (element_next a rest)

  pub data ShapedMembers (is_zero : Text → Bool)
      : MemberTypes → Members → Text → JsonValue → SetMembers → Type 0 where
    no_member :
        {d : Members} {name : Text} {v : JsonValue}
        → ShapedMembers is_zero no_types d name v end_members
    next_member :
        {m name : Text} {t : ArgumentType} {x : Option Text} {ts : MemberTypes} {d : Members}
        {v u : JsonValue} {a : SetArgument} {rest : SetMembers}
        → MemberValue m d v u
        → Shaped is_zero t (name ++ codes "." ++ m) u a
        → ShapedMembers is_zero ts d name v rest
        → ShapedMembers is_zero (type_then m t x ts) d name v (member_next m a rest)

module _ (is_zero : Text → Bool) where
  -- The elements, where each element is set up in the shape of its type.
  set_elements-ShapedElements :
      (t : ArgumentType) (element : Text → Option Text → JsonValue → Option SetArgument)
      → ((n : Text) (x : Option Text) (v : JsonValue)
          → (a : SetArgument) × (element n x v ≡ some a) × Shaped is_zero t n v a)
      → (name : Text) (x : Option Text) (i : ℕ) (es : Elements)
      → (rest : SetElements) × (set_elements element name x i es ≡ some rest)
        × ShapedElements is_zero t name i es rest
  unfolding set_elements element_suffix
  set_elements-ShapedElements t element h name x i no_elements = (end_elements, refl, no_more)
  set_elements-ShapedElements t element h name x i (element_then v es) =
      let (a, e, s) = h (name ++ element_suffix i) (element_description i x) v in
      let (rest, f, r) = set_elements-ShapedElements t element h name x (suc i) es in
      (element_next a rest, rw (e, f) refl, next s r)

  mutual
    unfolding setup_command_argument member_value

    type-Shaped :
        (type : ArgumentType) (name : Text) (description : Option Text) (value : JsonValue)
        → HasDefaults type
        → (a : SetArgument) × (setup_command_argument is_zero type name description value ≡ some a)
          × Shaped is_zero type name value a
    type-Shaped (enumeration keys d) name x v h = (
      _,
      refl,
      choice (or_null-OrNull is_zero v) (enum_value-EnumValue keys d (or_null is_zero v)),
    )
    type-Shaped boolean name x v h = (_, refl, truth)
    type-Shaped (array_of n t d) name x v (array_has h) =
        let (es, e, s) =
          set_elements-ShapedElements t (setup_command_argument is_zero t)
            (λ m y w. type-Shaped t m y w h) name x 0 (array_values n d (or_null is_zero v)) in
        (
          set_argument name x (indexed es) [],
          rw e refl,
          elements (or_null-OrNull is_zero v) (array_values-ArrayValues n d (or_null is_zero v)) s,
        )
    type-Shaped (structure ts none) name x v h = elim h [ ]
    type-Shaped (structure ts (some d)) name x v (structure_has h) =
        let (ms, e, s) = set_members-ShapedMembers ts d name x (or_null is_zero v) h in
        (set_argument name x (named ms) [], rw e refl, members (or_null-OrNull is_zero v) s)
    type-Shaped other_type name x v h = (_, refl, single (or_null-OrNull is_zero v))

    set_members-ShapedMembers :
        (ts : MemberTypes) (d : Members) (name : Text) (x : Option Text) (v : JsonValue)
        → HaveDefaults ts
        → (ms : SetMembers) × (set_members is_zero ts (some d) name x v ≡ some ms)
          × ShapedMembers is_zero ts d name v ms
    set_members-ShapedMembers no_types d name x v h = (end_members, refl, no_member)
    set_members-ShapedMembers (type_then m t y ts) d name x v (type_has h k) =
        let (a, e, s) =
          type-Shaped t (name ++ codes "." ++ m) (member_description y x)
            (or_default (supplied m v) (find_json m d)) h in
        let (rest, f, r) = set_members-ShapedMembers ts d name x v k in
        (member_next m a rest, rw (e, f) refl, next_member (or_default-MemberValue m d v) s r)
