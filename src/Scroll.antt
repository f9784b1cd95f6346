-- ===== src/Scroll.antt =====
-- static/js/vue-support/utils.js: `ScrollHandler`, the window of a long list that is shown.
-- A method that reads a property of `null` throws: its result is then `none`.
mod Tests
pub mod Window
pub mod Runs
pub mod Shown
use fprime_gds.Base.{
  ℕ, ◌+◌, ◌-◌, Bool, true, false, ◌&&◌, ◌||◌, not, Option, none, some, List, [], ◌∷◌, ltb, leb,
  ◌==◌, min, length, get_elem?, take, drop, if◌then◌else◌, ◌>>=◌,
}
use fprime_gds.Base.Int.{ℤ, pos, negsuc, ◌+ℤ◌, ◌-ℤ◌, ltb_ℤ, min_ℤ, max_ℤ}

-- The element of the page that is scrolled, in pixels.
pub record Element : Type 0 where
  pub scroll_top : ℤ
  pub scroll_height : ℤ
  pub client_height : ℤ

pub record Metadata : Type 0 where
  pub offset : ℤ
  pub count : ℕ
  pub total : ℕ
  pub status : Bool
  pub locked : Bool
  pub updating : Bool

-- `rows` is the field `data`. `step` stands for `this.step`.
pub record ScrollHandler (A : Type 0) : Type 0 where
  pub element : Option Element
  pub rows : Option (List A)
  pub displayed : List A
  pub metadata : Metadata
  pub offset : ℤ
  pub count : ℕ
  pub step : ℕ
  pub updating : Bool
  pub locked : Bool
  pub prev_time : ℤ

-- `value || d` for an optional number: 0 counts as missing.
or_number : Option ℕ → ℕ → ℕ
or_number none d = d
or_number (some n) d = if n == 0 then d else n

abbrev pub is_zero : ℤ → Bool
is_zero (pos n) = n == 0
is_zero (negsuc n) = false

-- A relative index of Array.prototype.slice: a negative one counts from the end.
relative : ℕ → ℤ → ℕ
relative len (pos n) = min n len
relative len (negsuc n) = len - (n + 1)

-- xs.slice(from, to)
pub slice : {A : Type 0} → List A → ℤ → ℤ → List A
unfolding relative
slice xs from to =
    let start = relative (length xs) from in take (relative (length xs) to - start) (drop start xs)

-- this.data || scrolled_data
pub old_rows : {A : Type 0} → Option (List A) → List A → List A
old_rows none scrolled = scrolled
old_rows (some old) scrolled = old

-- Math.abs(elmH - elmT - elmC) <= 2.0 && elmT !== 0
pub is_at_bottom : Element → Bool
is_at_bottom e =
    let gap = e.scroll_height -ℤ e.scroll_top -ℤ e.client_height in
    not (ltb_ℤ (pos 2) gap) && not (ltb_ℤ gap (pos 0 -ℤ pos 2)) && not (is_zero e.scroll_top)

-- The effect of `element.scrollTop = top` is the browser's; === on items is `same`.
module _ {A : Type 0} (set_scroll_top : Element → ℤ → Element) (same : A → A → Bool) where
  pub construct : List A → Option ℕ → Option ℕ → ScrollHandler A
  unfolding or_number
  construct displayed display_count scroll_step = record {
    element = none;
    rows = none;
    displayed = displayed;
    metadata = record {
      offset = pos 0;
      count = or_number display_count 100;
      total = 0;
      status = false;
      locked = false;
      updating = false;
    };
    offset = pos 0;
    count = or_number display_count 100;
    step = or_number scroll_step 5;
    updating = false;
    locked = false;
    prev_time = pos 0;
  }

  pub set_element : Element → ScrollHandler A → ScrollHandler A
  set_element e h = record h { element = some e }

  pub unset_element : ScrollHandler A → ScrollHandler A
  unset_element h = record h { element = none }

  pub filled : ScrollHandler A → Option Bool
  filled h = do data_rows ← h.rows; some (ltb h.count (length data_rows))

  pub update : ScrollHandler A → Option (ScrollHandler A)
  unfolding filled slice
  update h = do
    data_rows ← h.rows
    status ← filled h
    some (record h {
      metadata = record {
        offset = h.offset;
        count = h.count;
        total = length data_rows;
        status = status;
        locked = h.locked;
        updating = h.updating;
      };
      displayed = slice data_rows h.offset (h.offset +ℤ pos h.count);
    })

  -- this.element.scrollTop = top
  pub scroll_to : ℤ → ScrollHandler A → Option (ScrollHandler A)
  scroll_to top h = do e ← h.element; some (record h { element = some (set_scroll_top e top) })

  -- this.element.scrollHeight - this.element.clientHeight
  pub bottom : ScrollHandler A → Option ℤ
  bottom h = do e ← h.element; some (e.scroll_height -ℤ e.client_height)

  pub first : ScrollHandler A → Option (ScrollHandler A)
  unfolding scroll_to filled update
  first h = do
    h1 ← scroll_to (pos 0) h
    let h2 = record h1 { updating = false }
    full ← filled h2
    update (if full then record h2 { offset = pos 0 } else h2)

  pub last : ScrollHandler A → Option (ScrollHandler A)
  unfolding scroll_to filled update bottom
  last h = do
    top ← bottom h
    h1 ← scroll_to top h
    let h2 = record h1 { updating = true }
    full ← filled h2
    data_rows ← h2.rows
    update (if full then record h2 { offset = pos (length data_rows) -ℤ pos h2.count } else h2)

  pub toggle_lock : ScrollHandler A → Option (ScrollHandler A)
  unfolding last
  toggle_lock h = last (record h { locked = not h.locked })

  -- The last branch of `move`.
  pub shift : ℤ → ℤ → ScrollHandler A → Option (ScrollHandler A)
  unfolding scroll_to bottom
  shift new_offset change h = do
    let h1 = record h { offset = new_offset; updating = false }
    end ← bottom h1
    let top = if ltb_ℤ change (pos 0) then pos 20 else end -ℤ pos 20
    scroll_to (if ltb_ℤ (pos 0) top then top else pos 0) h1

  pub move : ℤ → ScrollHandler A → Option (ScrollHandler A)
  unfolding first last shift
  move change h = do
    data_rows ← h.rows
    let new_offset = h.offset +ℤ change
    (if not (ltb_ℤ (new_offset +ℤ pos h.count) (pos (length data_rows)))
        then last h
        else if not (ltb_ℤ (pos 0) new_offset)
        then first h
        else shift new_offset change h)

  -- The shared body of `prev` and `next`.
  pub step_by : ℤ → ScrollHandler A → Option (ScrollHandler A)
  unfolding filled move update
  step_by change h = do
    full ← filled h
    h1 ← if full then move change (record h { updating = false }) else some h
    update h1

  pub prev : ScrollHandler A → Option (ScrollHandler A)
  unfolding step_by
  prev h = step_by (pos 0 -ℤ pos h.step) h

  pub next : ScrollHandler A → Option (ScrollHandler A)
  unfolding step_by
  next h = step_by (pos h.step) h

  -- scrolled.indexOf(item), `none` for -1
  index_from : ℕ → A → List A → Option ℕ
  index_from i item [] = none
  index_from i item (x ∷ xs) = if same x item then some i else index_from (i + 1) item xs

  -- The loop that looks for a shown item among the new ones; the list is what is left of it.
  relocate : List A → List A → Option ℕ
  unfolding index_from
  relocate scrolled [] = none
  relocate scrolled (x ∷ xs) = elim (index_from 0 x scrolled) [
    | some i ↦ some i
    | none ↦ relocate scrolled xs
  ]

  -- The offset before the clamp; `old` is the data before the update.
  pub carried_offset : List A → List A → ScrollHandler A → ℤ
  unfolding relocate slice
  carried_offset old scrolled h =
      if h.updating || h.locked
      then pos (length old) -ℤ pos h.count
      else if not (ltb_ℤ h.offset (pos 0)) && ltb_ℤ h.offset (pos (length old))
      then elim (relocate scrolled (slice old h.offset (h.offset +ℤ pos h.count))) [
        | some i ↦ pos i
        | none ↦ h.offset
      ]
      else h.offset

  -- `updateData` up to the assignment of the new data.
  pub clamped : List A → ScrollHandler A → ScrollHandler A
  unfolding carried_offset old_rows
  clamped scrolled h =
      let old = old_rows h.rows scrolled in
      record h {
        offset =
            max_ℤ (pos 0) (min_ℤ (carried_offset old scrolled h) (pos (length old) -ℤ pos h.count));
        rows = some scrolled;
      }

  -- The step behind it, which follows the end of the data.
  pub follow : ℕ → ScrollHandler A → Option (ScrollHandler A)
  unfolding filled scroll_to bottom
  follow total h = do
    full ← filled h
    (if h.updating && full && ltb_ℤ (h.offset +ℤ pos h.count) (pos total)
        then (do top ← bottom h; scroll_to top (record h { offset = pos total -ℤ pos h.count }))
        else some h)

  pub update_data : List A → ScrollHandler A → Option (ScrollHandler A)
  unfolding clamped follow update
  update_data scrolled h = do h1 ← follow (length scrolled) (clamped scrolled h); update h1

  -- `none` for an event that is undefined
  pub user_scrolled : Option ℤ → ScrollHandler A → Bool × ScrollHandler A
  user_scrolled none h = (false, h)
  user_scrolled (some time_stamp) h =
      (ltb_ℤ (time_stamp -ℤ h.prev_time) (pos 800), record h { prev_time = time_stamp })

  -- The branch of `onScroll` that changes the view.
  pub meter : ScrollHandler A → Option (ScrollHandler A)
  unfolding is_at_bottom prev next
  meter h = do
    e ← h.element
    if is_at_bottom e then next h else if is_zero e.scroll_top then prev h else some h

  unfoldable pub on_scroll : Option ℤ → ScrollHandler A → Option (ScrollHandler A)
  unfolding user_scrolled filled meter
  on_scroll event h =
      let (by_user, h1) = user_scrolled event h in
      if h.locked
      then some h
      else (do full ← filled h1; if full && by_user then meter h1 else some h1)
