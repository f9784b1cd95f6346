-- ===== src/Views/Render/Tests.antt =====
-- The children of a structure with an array.
use fprime_gds.Base.{refl, some, none, ◌≡◌, ◌∷◌, [], ℕ}
use fprime_gds.Base.Text.{codes}
use fprime_gds.Validate.{member, element}
use fprime_gds.Views.Render.{
  ElementType, type_with, no_member_type, member_type_of, no_member_list, member_list_of, type_then,
  no_types, child_type, child_indices, ChannelRender, display_text, shown_val,
}

abbrev byte : ElementType
byte = type_with no_member_type 0 no_member_list

abbrev three_bytes : ElementType
three_bytes = type_with (member_type_of byte) 3 no_member_list

abbrev packet : ElementType
packet = type_with no_member_type 0 (member_list_of (type_then (codes "a") three_bytes no_types))

children_of_packet :
    (child_indices packet ≡ member (codes "a") ∷ [])
    × (child_type packet (member (codes "a")) ≡ some (some three_bytes))
    × (child_type packet (member (codes "b")) ≡ none)
    × (child_indices three_bytes ≡ element 0 ∷ element 1 ∷ element 2 ∷ [])
unfolding child_indices child_type
children_of_packet = (refl, refl, refl, refl)

abbrev child_of_array : ChannelRender ℕ
child_of_array = record {
  item_type = none;
  item_val = none;
  item_display_text = none;
  val = some 7;
  element_type = some byte;
  display_val = none;
}

falls_back_on_val : display_text child_of_array ≡ some 7
unfolding display_text shown_val
falls_back_on_val = refl
