-- ===== src/Scroll/Tests.antt =====
-- The scroll handler on a list of numbers, over a browser that stores what is written.
use fprime_gds.Base.{
  refl, ◌≡◌, ℕ, Bool, List, Option, some, [], ◌==◌, ◌∷◌, arith, none, true, false,
}
use fprime_gds.Scroll.{
  Element, ScrollHandler, next, prev, update_data, slice, on_scroll, toggle_lock,
}
use fprime_gds.Base.Int.{◌+ℤ◌, ℤ, pos, ◌-ℤ◌}
use fprime_gds.Scroll.Runs.{
  run, Lives, Action, run-Lives, IsLive, to_next, feed, apply, to_last, scroll, to_first, lock,
}

abbrev store_top : Element → ℤ → Element
store_top e top = record e { scroll_top = top }

abbrev same_number : ℕ → ℕ → Bool
same_number a b = a == b

abbrev rows6 : List ℕ
rows6 = 1 ∷ 2 ∷ 3 ∷ 4 ∷ 5 ∷ 6 ∷ []

abbrev rows8 : List ℕ
rows8 = 1 ∷ 2 ∷ 3 ∷ 4 ∷ 5 ∷ 6 ∷ 7 ∷ 8 ∷ []

-- At the second item of six, with a page of three and steps of two.
abbrev at_second : ScrollHandler ℕ
at_second = record {
  element = some (record { scroll_top = pos 0; scroll_height = pos 300; client_height = pos 100 });
  rows = some rows6;
  displayed = 2 ∷ 3 ∷ 4 ∷ [];
  metadata = record {
    offset = pos 1;
    count = 3;
    total = 6;
    status = true;
    locked = false;
    updating = false;
  };
  offset = pos 1;
  count = 3;
  step = 2;
  updating = false;
  locked = false;
  prev_time = pos 0;
}

at_second-IsLive : IsLive rows6 at_second
unfolding ◌+ℤ◌ slice
at_second-IsLive = record {
  attached = λ e. cc;
  in_range = record { holds = refl; low = omega arith; high = omega arith };
  in_sync = record {
    displayed = refl;
    offset = refl;
    count = refl;
    total = refl;
    status = refl;
    locked = refl;
    updating = refl;
  };
}

abbrev session : List (Action ℕ)
session = to_next ∷ feed rows8 ∷ to_last ∷ scroll (some (pos 50)) ∷ to_first ∷ lock ∷ []

-- What is displayed behind the calls.
abbrev shown : Option (ScrollHandler ℕ) → List ℕ
shown none = []
shown (some h) = h.displayed

next_page : shown (next store_top same_number at_second) ≡ 4 ∷ 5 ∷ 6 ∷ []
unfolding next slice ◌+ℤ◌ ◌-ℤ◌
next_page = refl

prev_page : shown (prev store_top same_number at_second) ≡ 1 ∷ 2 ∷ 3 ∷ []
unfolding prev slice ◌+ℤ◌ ◌-ℤ◌
prev_page = refl

-- The second item is found again behind two new ones.
relocated : shown (update_data store_top same_number (0 ∷ 0 ∷ rows6) at_second) ≡ 2 ∷ 3 ∷ 4 ∷ []
unfolding update_data slice ◌+ℤ◌ ◌-ℤ◌
relocated = refl

session_shows : shown (run store_top same_number session at_second) ≡ 6 ∷ 7 ∷ 8 ∷ []
unfolding run slice ◌+ℤ◌ ◌-ℤ◌ apply on_scroll next prev toggle_lock update_data
session_shows = refl

run-Lives_example : Lives rows8 (run store_top same_number session at_second)
run-Lives_example =
    run-Lives store_top same_number session rows6 at_second at_second-IsLive (omega arith)
