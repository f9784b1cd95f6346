-- ===== src/Views/Render.antt =====
-- static/addons/channel-render/channel-render.js: the children of a value of a channel, their types,
-- and the text that is shown.
mod Tests
use fprime_gds.Base.{
  none, some, [], ◌∷◌, List, ℕ, zero, suc, Option, if◌then◌else◌, ◌>>=◌, map, ◌+◌,
}
use fprime_gds.Base.Text.{Text, text_eq}
use fprime_gds.Validate.{Token, member, element}

-- A type of the dictionary: its MEMBER_TYPE, its LENGTH, 0 where it has none, and its MEMBER_LIST.
mutual
  pub data ElementType : Type 0 where
    type_with : MemberType → ℕ → MemberList → ElementType

  pub data MemberType : Type 0 where
    no_member_type : MemberType
    member_type_of : ElementType → MemberType

  pub data MemberList : Type 0 where
    no_member_list : MemberList
    member_list_of : NamedTypes → MemberList

  pub data NamedTypes : Type 0 where
    no_types : NamedTypes
    type_then : Text → ElementType → NamedTypes → NamedTypes

-- What the rows of the component are given; `V` is the type of values and of texts that are shown.
pub record ChannelRender (V : Type 0) : Type 0 where
  pub item_type : Option ElementType
  pub item_val : Option V
  pub item_display_text : Option V
  pub val : Option V
  pub element_type : Option ElementType
  pub display_val : Option V

-- matching[0][1] of the members with the name `index`; `none` is a TypeError.
member_type : Text → NamedTypes → Option ElementType
unfolding text_eq
member_type index no_types = none
member_type index (type_then name t ts) =
    if text_eq name index then some t else member_type index ts

-- A key of a member is a text, so an index of an array is none of them.
named_type : Token → NamedTypes → Option ElementType
unfolding member_type
named_type (element i) ts = none
named_type (member name) ts = member_type name ts

-- childType; the inner option is null, the outer a TypeError.
pub child_type : ElementType → Token → Option (Option ElementType)
unfolding named_type
child_type (type_with (member_type_of t) n ms) index = some (some t)
child_type (type_with no_member_type n (member_list_of ts)) index = do
  t ← named_type index ts
  some (some t)
child_type (type_with no_member_type n no_member_list) index = some none

-- [...Array(n).keys()], from `i` on
indices_from : ℕ → ℕ → List Token
indices_from i zero = []
indices_from i (suc n) = element i ∷ indices_from (i + 1) n

member_names : NamedTypes → List Token
member_names no_types = []
member_names (type_then name t ts) = member name ∷ member_names ts

-- childIndices
pub child_indices : ElementType → List Token
unfolding indices_from member_names
child_indices (type_with m (suc n) ms) = indices_from 0 (suc n)
child_indices (type_with m zero (member_list_of ts)) = member_names ts
child_indices (type_with m zero no_member_list) = []

module _ {V : Type 0} where
  or_next : Option V → Option V → Option V
  or_next none w = w
  or_next (some v) w = some v

  -- type, `none` for the TypeError of neither an item nor a type.
  pub type : ChannelRender V → Option ElementType
  type c = elim c.element_type [ none ↦ c.item_type | some t ↦ some t ]

  -- displayVal
  pub shown_val : ChannelRender V → Option V
  unfolding or_next
  shown_val c = or_next c.item_display_text c.display_val

  -- displayText, `none` for ""
  pub display_text : ChannelRender V → Option V
  unfolding shown_val or_next
  display_text c = or_next (shown_val c) (or_next c.item_val c.val)
