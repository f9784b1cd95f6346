-- ===== src/Scroll/Shown.antt =====
-- What is displayed is the page at the offset, and the metadata says so.
use fprime_gds.Base.{◌≡◌, List, Bool, length, some, ltb, arith, Option-cases, inl, false, inr}
use fprime_gds.Base.Int.{ℤ, pos, ◌+ℤ◌}
use fprime_gds.Scroll.{
  ScrollHandler, Element, slice, update, first, last, filled, scroll_to, bottom, step_by,
  update_data, follow, clamped, move,
}
use fprime_gds.Scroll.Window.{InRange, move-InRange}

-- The displayed items are the page of `d` at the offset, and the metadata describe it.
pub record InSync {A : Type 0} (d : List A) (h : ScrollHandler A) : Type 0 where
  pub displayed : h.displayed ≡ slice d h.offset (h.offset +ℤ pos h.count)
  pub offset : h.metadata.offset ≡ h.offset
  pub count : h.metadata.count ≡ h.count
  pub total : h.metadata.total ≡ length d
  pub status : h.metadata.status ≡ ltb h.count (length d)
  pub locked : h.metadata.locked ≡ h.locked
  pub updating : h.metadata.updating ≡ h.updating

module _ {A : Type 0} (set_scroll_top : Element → ℤ → Element) (same : A → A → Bool) where
  pub update-InSync :
      (d : List A) (h h' : ScrollHandler A)
      → h.rows ≡ some d
      → update set_scroll_top same h ≡ some h'
      → InSync d h'
  unfolding update filled
  update-InSync d h h' r e = ground arith

  pub first-InSync :
      (d : List A) (h h' : ScrollHandler A)
      → h.rows ≡ some d
      → first set_scroll_top same h ≡ some h'
      → InSync d h'
  unfolding first update filled scroll_to
  first-InSync d h h' r e = ground arith

  pub last-InSync :
      (d : List A) (h h' : ScrollHandler A)
      → h.rows ≡ some d
      → last set_scroll_top same h ≡ some h'
      → InSync d h'
  unfolding last update filled scroll_to bottom
  last-InSync d h h' r e = ground arith

  pub step_by-InSync :
      (d : List A) (c : ℤ) (h h' : ScrollHandler A)
      → InRange d h
      → step_by set_scroll_top same c h ≡ some h'
      → InSync d h'
  unfolding step_by filled
  step_by-InSync d c h h' r e =
      elim (Option-cases (move set_scroll_top same c (record h { updating = false }))) [
        | inl none_left ↦ ground (arith, update-InSync d h h')
        | inr (h1, moved) ↦ ground (
          arith,
          update-InSync d h h',
          update-InSync d h1 h',
          move-InRange set_scroll_top same d c (record h { updating = false }) h1,
        )
      ]

  pub update_data-InSync :
      (d : List A) (h h' : ScrollHandler A)
      → update_data set_scroll_top same d h ≡ some h'
      → InSync d h'
  unfolding update_data follow clamped filled scroll_to bottom
  update_data-InSync d h h' e =
      elim (Option-cases
        (follow set_scroll_top same (length d) (clamped set_scroll_top same d h))) [
          | inl none_left ↦ ground arith
          | inr (h1, followed) ↦ ground (arith, update-InSync d h1 h')
        ]
