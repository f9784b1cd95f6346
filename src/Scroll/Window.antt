-- ===== src/Scroll/Window.antt =====
-- The offset of the scroll handler stays inside the data.
use fprime_gds.Base.{
  refl, ◌≡◌, List, Bool, some, max, arith, length, ◌≤◌, ℕ, Option-cases, false, inl, inr,
}
use fprime_gds.Base.Int.{ℤ, pos, ◌≤ℤ◌, ◌+ℤ◌, ◌-ℤ◌, max_ℤ, min_ℤ}
use fprime_gds.Scroll.{
  ScrollHandler, Element, scroll_to, update, first, filled, last, shift, move, step_by, clamped,
  follow, update_data, bottom, old_rows, carried_offset,
}

-- The handler holds `d`, and its page of `count` rows lies inside `d`, or at the start of a `d`
-- that is shorter than a page.
pub record InRange {A : Type 0} (d : List A) (h : ScrollHandler A) : Type 0 where
  pub holds : h.rows ≡ some d
  pub low : pos 0 ≤ℤ h.offset
  pub high : h.offset +ℤ pos h.count ≤ℤ pos (max h.count (length d))

-- The clamp of `updateData`.
clamp_bounds :
    (c : ℤ) (old n new : ℕ)
    → old ≤ new
    → let o = max_ℤ (pos 0) (min_ℤ c (pos old -ℤ pos n)) in
      (pos 0 ≤ℤ o) × (o +ℤ pos n ≤ℤ pos (max n new))
unfolding ◌+ℤ◌ ◌-ℤ◌
clamp_bounds c old n new h = ground arith

module _ {A : Type 0} (set_scroll_top : Element → ℤ → Element) (same : A → A → Bool) where
  scroll_to-InRange :
      (d : List A) (top : ℤ) (h h' : ScrollHandler A)
      → InRange d h
      → scroll_to set_scroll_top same top h ≡ some h'
      → InRange d h'
  unfolding scroll_to
  scroll_to-InRange d top h h' r e = ground arith

  pub update-InRange :
      (d : List A) (h h' : ScrollHandler A)
      → InRange d h
      → update set_scroll_top same h ≡ some h'
      → InRange d h'
  unfolding update filled
  update-InRange d h h' r e = ground arith

  pub first-InRange :
      (d : List A) (h h' : ScrollHandler A)
      → InRange d h
      → first set_scroll_top same h ≡ some h'
      → InRange d h'
  unfolding first update filled scroll_to ◌+ℤ◌
  first-InRange d h h' r e = ground arith

  pub last-InRange :
      (d : List A) (h h' : ScrollHandler A)
      → InRange d h
      → last set_scroll_top same h ≡ some h'
      → InRange d h'
  unfolding last update filled scroll_to bottom ◌+ℤ◌ ◌-ℤ◌
  last-InRange d h h' r e = ground arith

  shift-InRange :
      (d : List A) (o c : ℤ) (h h' : ScrollHandler A)
      → h.rows ≡ some d
      → pos 0 ≤ℤ o
      → o +ℤ pos h.count ≤ℤ pos (length d)
      → shift set_scroll_top same o c h ≡ some h'
      → InRange d h'
  unfolding shift scroll_to bottom
  shift-InRange d o c h h' r l u e = ground arith

  pub move-InRange :
      (d : List A) (c : ℤ) (h h' : ScrollHandler A)
      → InRange d h
      → move set_scroll_top same c h ≡ some h'
      → InRange d h'
  unfolding move
  move-InRange d c h h' r e =
      ground
        (arith, last-InRange d h h', first-InRange d h h', shift-InRange d (h.offset +ℤ c) c h h')

  pub step_by-InRange :
      (d : List A) (c : ℤ) (h h' : ScrollHandler A)
      → InRange d h
      → step_by set_scroll_top same c h ≡ some h'
      → InRange d h'
  unfolding step_by filled
  step_by-InRange d c h h' r e =
      elim (Option-cases (move set_scroll_top same c (record h { updating = false }))) [
        | inl none_left ↦ ground (arith, update-InRange d h h')
        | inr (h1, moved) ↦ ground (
          arith,
          update-InRange d h h',
          update-InRange d h1 h',
          move-InRange d c (record h { updating = false }) h1,
        )
      ]

  pub clamped-InRange :
      (d : List A) (h : ScrollHandler A)
      → length (old_rows h.rows d) ≤ length d
      → InRange d (clamped set_scroll_top same d h)
  unfolding clamped
  clamped-InRange d h le = record {
    holds = refl;
    low =
        (clamp_bounds (carried_offset set_scroll_top same (old_rows h.rows d) d h)
          (length (old_rows h.rows d)) h.count (length d) le).0;
    high =
        (clamp_bounds (carried_offset set_scroll_top same (old_rows h.rows d) d h)
          (length (old_rows h.rows d)) h.count (length d) le).1;
  }

  pub follow-InRange :
      (d : List A) (h h' : ScrollHandler A)
      → InRange d h
      → follow set_scroll_top same (length d) h ≡ some h'
      → InRange d h'
  unfolding follow filled scroll_to bottom ◌+ℤ◌ ◌-ℤ◌
  follow-InRange d h h' r e = ground arith

  pub update_data-InRange :
      (d : List A) (h h' : ScrollHandler A)
      → length (old_rows h.rows d) ≤ length d
      → update_data set_scroll_top same d h ≡ some h'
      → InRange d h'
  unfolding update_data
  update_data-InRange d h h' le e =
      elim (Option-cases
        (follow set_scroll_top same (length d) (clamped set_scroll_top same d h))) [
          | inl none_left ↦ ground arith
          | inr (h1, followed) ↦ ground (
            arith,
            clamped-InRange d h le,
            follow-InRange d (clamped set_scroll_top same d h) h1,
            update-InRange d h1 h',
          )
        ]
