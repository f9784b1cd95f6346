-- ===== src/Search/Attributes/Tests.antt =====
-- Attributes with an enclosed part, and without one.
use fprime_gds.Base.{refl, ◌≡◌, ◌∷◌, []}
use fprime_gds.Base.Text.{codes}
use fprime_gds.Base.Decimal.{is_white, trim}
use fprime_gds.Search.Attributes.{attribute_string_to_list}

-- The example of the comment, and a text without enclosed parts.
enclosed_last :
    (attribute_string_to_list (codes "Alpha 'Charlie Delta' Bravo")
      ≡ codes "Alpha" ∷ codes "Bravo" ∷ codes "Charlie Delta" ∷ [])
    × (attribute_string_to_list (codes "  it's  ") ≡ codes "it's" ∷ [])
unfolding attribute_string_to_list is_white trim
enclosed_last = (refl, refl)
