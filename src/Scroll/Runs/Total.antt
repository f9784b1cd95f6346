-- ===== src/Scroll/Runs/Total.antt =====
-- The calls of the scroll handler return while an element is attached.
use fprime_gds.Base.{
  ℕ, ◌≡◌, refl, List, Option, Bool, ◌≢◌, some, none, arith, Option-cases, length, false, inl, inr,
}
use fprime_gds.Base.Int.{ℤ, ◌+ℤ◌}
use fprime_gds.Scroll.{
  ScrollHandler, Element, update_data, update, first, last, shift, move, filled, scroll_to, bottom,
  step_by, follow, clamped,
}
use fprime_gds.Scroll.Window.{InRange, move-InRange}

-- A call did not throw, and the element is still attached.
abbrev pub Returns : {A : Type 0} → Option (ScrollHandler A) → Type 0
Returns none = ⊥
Returns (some h) = h.element ≢ none

module _ {A : Type 0} (set_scroll_top : Element → ℤ → Element) (same : A → A → Bool) where
  pub update-Returns :
      (d : List A) (h : ScrollHandler A)
      → h.rows ≡ some d
      → h.element ≢ none
      → Returns (update set_scroll_top same h)
  unfolding update filled
  update-Returns d h r e = ground arith

  pub first-Returns :
      (d : List A) (h : ScrollHandler A)
      → h.rows ≡ some d
      → h.element ≢ none
      → Returns (first set_scroll_top same h)
  unfolding first update filled scroll_to
  first-Returns d h r e = ground arith

  pub last-Returns :
      (d : List A) (h : ScrollHandler A)
      → h.rows ≡ some d
      → h.element ≢ none
      → Returns (last set_scroll_top same h)
  unfolding last update filled scroll_to bottom
  last-Returns d h r e = ground arith

  shift-Returns :
      (o c : ℤ) (h : ScrollHandler A) → h.element ≢ none → Returns (shift set_scroll_top same o c h)
  unfolding shift scroll_to bottom
  shift-Returns o c h e = ground arith

  move-Returns :
      (d : List A) (c : ℤ) (h : ScrollHandler A)
      → h.rows ≡ some d
      → h.element ≢ none
      → Returns (move set_scroll_top same c h)
  unfolding move
  move-Returns d c h r e =
      ground (arith, last-Returns d h, first-Returns d h, shift-Returns (h.offset +ℤ c) c h)

  pub step_by-Returns :
      (d : List A) (c : ℤ) (h : ScrollHandler A)
      → InRange d h
      → h.element ≢ none
      → Returns (step_by set_scroll_top same c h)
  unfolding step_by filled
  step_by-Returns d c h r e =
      elim (Option-cases (move set_scroll_top same c (record h { updating = false }))) [
        | inl none_left ↦
            ground (arith, move-Returns d c (record h { updating = false }), update-Returns d h)
        | inr (h1, moved) ↦ ground (
          arith,
          move-Returns d c (record h { updating = false }),
          update-Returns d h,
          update-Returns d h1,
          move-InRange set_scroll_top same d c (record h { updating = false }) h1,
        )
      ]

  follow-Returns :
      (d : List A) (n : ℕ) (h : ScrollHandler A)
      → h.rows ≡ some d
      → h.element ≢ none
      → Returns (follow set_scroll_top same n h)
  unfolding follow filled scroll_to bottom
  follow-Returns d n h r e = ground arith

  follow-rows :
      (d : List A) (n : ℕ) (h h' : ScrollHandler A)
      → h.rows ≡ some d
      → follow set_scroll_top same n h ≡ some h'
      → h'.rows ≡ some d
  unfolding follow filled scroll_to bottom
  follow-rows d n h h' r e = ground arith

  clamped-rows :
      (d : List A) (h : ScrollHandler A) → (clamped set_scroll_top same d h).rows ≡ some d
  unfolding clamped
  clamped-rows d h = refl

  clamped-element :
      (d : List A) (h : ScrollHandler A) → (clamped set_scroll_top same d h).element ≡ h.element
  unfolding clamped
  clamped-element d h = refl

  pub update_data-Returns :
      (d : List A) (h : ScrollHandler A)
      → h.element ≢ none
      → Returns (update_data set_scroll_top same d h)
  unfolding update_data
  update_data-Returns d h e =
      elim (Option-cases
        (follow set_scroll_top same (length d) (clamped set_scroll_top same d h))) [
          | inl none_left ↦ ground (
            arith,
            follow-Returns d (length d) (clamped set_scroll_top same d h) (clamped-rows d h),
            clamped-element d h,
          )
          | inr (h1, followed) ↦ ground (
            arith,
            follow-Returns d (length d) (clamped set_scroll_top same d h) (clamped-rows d h),
            follow-rows d (length d) (clamped set_scroll_top same d h) h1 (clamped-rows d h),
            clamped-element d h,
            update-Returns d h1,
          )
        ]
