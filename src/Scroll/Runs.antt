-- ===== src/Scroll/Runs.antt =====
-- Sequences of calls of the scroll handler while an element is attached.
pub mod Total
use fprime_gds.Scroll.Runs.Total.{
  Returns, update_data-Returns, first-Returns, last-Returns, step_by-Returns,
}
use fprime_gds.Base.{
  ◌>>=◌, ℕ, ◌≡◌, refl, List, Option, Bool, ◌≢◌, some, none, ◌∷◌, arith, Option-cases, length, [],
  false, inl, ◌≤◌, inr, if◌then◌else◌, true, ◌&&◌, not,
}
use fprime_gds.Base.Int.{ℤ, pos, ◌+ℤ◌, ◌-ℤ◌, ltb_ℤ}
use fprime_gds.Scroll.{
  ScrollHandler, Element, update_data, update, first, last, shift, move, prev, filled, scroll_to,
  next, bottom, toggle_lock, on_scroll, step_by, follow, clamped, meter, user_scrolled,
  is_at_bottom, old_rows, is_zero,
}
use fprime_gds.Scroll.Window.{
  InRange, move-InRange, step_by-InRange, update_data-InRange, first-InRange, last-InRange,
}
use fprime_gds.Scroll.Shown.{InSync, step_by-InSync, update_data-InSync, first-InSync, last-InSync}

pub data Action (A : Type 0) : Type 0 where
  feed : List A → Action A
  to_first to_last to_prev to_next lock : Action A
  scroll : Option ℤ → Action A

-- The data behind a call.
abbrev pub rows_after : {A : Type 0} → List A → Action A → List A
rows_after d (feed new) = new
rows_after d _ = d

-- The handler between two calls: an element is attached, and the page of `d` is in range and shown.
pub record IsLive {A : Type 0} (d : List A) (h : ScrollHandler A) : Type 0 where
  pub attached : h.element ≢ none
  pub in_range : InRange d h
  pub in_sync : InSync d h

-- A call did not throw, and the handler behind it is live.
abbrev pub Lives : {A : Type 0} → List A → Option (ScrollHandler A) → Type 0
Lives d none = ⊥
Lives d (some h) = IsLive d h

lives :
    {A : Type 0} (d : List A) (o : Option (ScrollHandler A))
    → Returns o
    → ((h : ScrollHandler A) → o ≡ some h → InRange d h)
    → ((h : ScrollHandler A) → o ≡ some h → InSync d h)
    → Lives d o
lives d none r p q = r
lives d (some h) r p q = record { attached = r; in_range = p h refl; in_sync = q h refl }

Lives-if :
    {A : Type 0} (d : List A) (b : Bool) (o p : Option (ScrollHandler A))
    → Lives d o
    → Lives d p
    → Lives d (if b then o else p)
Lives-if d true o p x y = x
Lives-if d false o p x y = y

Lives-bind :
    {A B : Type 0} (d : List A) (m : Option B) (f : B → Option (ScrollHandler A))
    → m ≢ none
    → ((b : B) → Lives d (f b))
    → Lives d (m >>= f)
Lives-bind d none f n k = n refl
Lives-bind d (some b) f n k = k b

module _ {A : Type 0} (set_scroll_top : Element → ℤ → Element) (same : A → A → Bool) where
  unfoldable pub apply : Action A → ScrollHandler A → Option (ScrollHandler A)
  apply (feed new) = update_data set_scroll_top same new
  apply to_first = first set_scroll_top same
  apply to_last = last set_scroll_top same
  apply to_prev = prev set_scroll_top same
  apply to_next = next set_scroll_top same
  apply lock = toggle_lock set_scroll_top same
  apply (scroll event) = on_scroll set_scroll_top same event

  unfoldable pub run : List (Action A) → ScrollHandler A → Option (ScrollHandler A)
  unfolding apply
  run [] h = some h
  run (a ∷ rest) h = do h' ← apply a h; run rest h'

  step_by-Lives :
      (d : List A) (c : ℤ) (h : ScrollHandler A)
      → IsLive d h
      → Lives d (step_by set_scroll_top same c h)
  step_by-Lives d c h l =
      lives d _ (step_by-Returns set_scroll_top same d c h l.in_range l.attached)
        (λ h' e. step_by-InRange set_scroll_top same d c h h' l.in_range e)
        (λ h' e. step_by-InSync set_scroll_top same d c h h' l.in_range e)

  meter-Lives :
      (d : List A) (h : ScrollHandler A) → IsLive d h → Lives d (meter set_scroll_top same h)
  unfolding meter next prev
  meter-Lives d h l = Lives-bind d h.element _ l.attached λ e.
      Lives-if d (is_at_bottom e) (step_by set_scroll_top same (pos h.step) h)
        (if is_zero e.scroll_top
          then step_by set_scroll_top same (pos 0 -ℤ pos h.step) h
          else some h)
        (step_by-Lives d (pos h.step) h l)
        (Lives-if d (is_zero e.scroll_top) (step_by set_scroll_top same (pos 0 -ℤ pos h.step) h)
          (some h) (step_by-Lives d (pos 0 -ℤ pos h.step) h l) l)

  seen :
      (t : ℤ) (d : List A) (h : ScrollHandler A)
      → IsLive d h
      → IsLive d (record h { prev_time = t })
  seen t d h l = record {
    attached = l.attached;
    in_range = record { holds = l.in_range.holds; low = l.in_range.low; high = l.in_range.high };
    in_sync = record {
      displayed = l.in_sync.displayed;
      offset = l.in_sync.offset;
      count = l.in_sync.count;
      total = l.in_sync.total;
      status = l.in_sync.status;
      locked = l.in_sync.locked;
      updating = l.in_sync.updating;
    };
  }

  filled-returns :
      {d : List A} (h : ScrollHandler A) → h.rows ≡ some d → filled set_scroll_top same h ≢ none
  unfolding filled
  filled-returns h r = ground arith

  scrolled-Lives :
      (d : List A) (h : ScrollHandler A) (user : Bool)
      → IsLive d h
      → Lives d (
          filled set_scroll_top same h >>= λ full.
          if full && user then meter set_scroll_top same h else some h)
  scrolled-Lives d h user l =
      Lives-bind d (filled set_scroll_top same h) _ (filled-returns h l.in_range.holds) λ full.
        Lives-if d (full && user) (meter set_scroll_top same h) (some h) (meter-Lives d h l) l

  on_scroll-Lives :
      (d : List A) (event : Option ℤ) (h : ScrollHandler A)
      → IsLive d h
      → Lives d (on_scroll set_scroll_top same event h)
  unfolding on_scroll user_scrolled
  on_scroll-Lives d none h l =
      Lives-if d h.locked (some h)
        (filled set_scroll_top same h >>= λ full.
          if full && false then meter set_scroll_top same h else some h)
        l (scrolled-Lives d h false l)
  on_scroll-Lives d (some t) h l =
      Lives-if d h.locked (some h)
        (filled set_scroll_top same (record h { prev_time = t }) >>= λ full.
          if full && ltb_ℤ (t -ℤ h.prev_time) (pos 800)
          then meter set_scroll_top same (record h { prev_time = t })
          else some (record h { prev_time = t }))
        l
        (scrolled-Lives d (record h { prev_time = t }) (ltb_ℤ (t -ℤ h.prev_time) (pos 800))
          (seen t d h l))

  apply-Lives :
      (d : List A) (a : Action A) (h : ScrollHandler A)
      → IsLive d h
      → length d ≤ length (rows_after d a)
      → Lives (rows_after d a) (apply a h)
  unfolding apply next prev toggle_lock old_rows
  apply-Lives d (feed new) h l g =
      lives new _ (update_data-Returns set_scroll_top same new h l.attached)
        (λ h' e. update_data-InRange set_scroll_top same new h h' (rw l.in_range.holds g) e)
        (λ h' e. update_data-InSync set_scroll_top same new h h' e)
  apply-Lives d to_first h l g =
      lives d _ (first-Returns set_scroll_top same d h l.in_range.holds l.attached)
        (λ h' e. first-InRange set_scroll_top same d h h' l.in_range e)
        (λ h' e. first-InSync set_scroll_top same d h h' l.in_range.holds e)
  apply-Lives d to_last h l g =
      lives d _ (last-Returns set_scroll_top same d h l.in_range.holds l.attached)
        (λ h' e. last-InRange set_scroll_top same d h h' l.in_range e)
        (λ h' e. last-InSync set_scroll_top same d h h' l.in_range.holds e)
  apply-Lives d to_prev h l g = step_by-Lives d (pos 0 -ℤ pos h.step) h l
  apply-Lives d to_next h l g = step_by-Lives d (pos h.step) h l
  apply-Lives d lock h l g =
      lives d (last set_scroll_top same (record h { locked = not h.locked }))
        (last-Returns set_scroll_top same d (record h { locked = not h.locked }) l.in_range.holds
          l.attached)
        (λ h' e.
          last-InRange set_scroll_top same d (record h { locked = not h.locked }) h'
            (record { holds = l.in_range.holds; low = l.in_range.low; high = l.in_range.high }) e)
        (λ h' e.
          last-InSync set_scroll_top same d (record h { locked = not h.locked }) h' l.in_range.holds
            e)
  apply-Lives d (scroll event) h l g = on_scroll-Lives d event h l

  -- Each feed has at least as many items as the one before.
  abbrev pub Growing : List A → List (Action A) → Type 0
  Growing d [] = Unit
  Growing d (a ∷ rest) = (length d ≤ length (rows_after d a)) × Growing (rows_after d a) rest

  abbrev pub rows_behind : List A → List (Action A) → List A
  rows_behind d [] = d
  rows_behind d (a ∷ rest) = rows_behind (rows_after d a) rest

  -- While an element is attached and no feed is shorter than the data before it, no call throws,
  -- and behind every sequence of calls the page lies inside the data, is what is displayed, and
  -- is what the metadata describe.
  pub run-Lives :
      (actions : List (Action A)) (d : List A) (h : ScrollHandler A)
      → IsLive d h
      → Growing d actions
      → Lives (rows_behind d actions) (run actions h)
  unfolding run
  run-Lives [] d h l g = l
  run-Lives (a ∷ rest) d h l g = elim (Option-cases (apply a h)) [
    | inl e ↦ absurd (rw e at (apply-Lives d a h l g.0))
    | inr (h', e) ↦
        rw e (run-Lives rest (rows_after d a) h' (rw e at (apply-Lives d a h l g.0)) g.1)
  ]
