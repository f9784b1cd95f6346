-- ===== src/History/Tests.antt =====
-- Runs of the histories on small items.
use fprime_gds.History.{
  Item, Time, Datetime, no_date, undefined, ItemMap, send_list, send_mapped, send_full_list, stamp,
  stamp_time, get, not_before, ℕ, List, some, ◌∷◌, false, pos, cut, time_to_date, merge,
  buffer_limit, assign, is_current, put,
}
use fprime_gds.History.Lists.{
  send_all-cut, send_all, stamp-numbers, numbers, timed, arrived, counted_from,
}
use fprime_gds.History.Maps.{get-send_mapped, send_mapped-not_before, newest, or_else}
use fprime_gds.Base.{ℕ, List, some, ◌≡◌, ◌∷◌, false, [], ◌⊎◌, ◌*◌, none, true, refl}
use fprime_gds.Base.Int.{pos}

abbrev item : ℕ → ℕ → Item
item k t = record {
  id = k;
  time = some (record { seconds = t; microseconds = 0 });
  datetime = fprime_gds.History.at (1000 * t);
  incremental_id = none;
  text = [];
}

abbrev first_batch : List Item
first_batch = item 1 1 ∷ item 2 2 ∷ []

abbrev second_batch : List Item
second_batch = item 3 3 ∷ item 1 5 ∷ item 1 4 ∷ []

send_all-cut_example :
    send_all (some (pos 2)) (first_batch ∷ [] ∷ second_batch ∷ []) (item 9 0 ∷ [])
    ≡ item 1 5 ∷ item 1 4 ∷ []
unfolding cut buffer_limit arrived
send_all-cut_example =
    send_all-cut (some (pos 2)) (item 1 1) (item 2 2 ∷ []) ([] ∷ second_batch ∷ []) (item 9 0 ∷ [])

stamp-numbers_example :
    (numbers (stamp 7 second_batch).0 ≡ some 7 ∷ some 8 ∷ some 9 ∷ [])
    × ((stamp 7 second_batch).1 ≡ 10)
unfolding stamp stamp_time time_to_date numbers timed counted_from
stamp-numbers_example = stamp-numbers 7 second_batch

abbrev channels : ItemMap
channels = (1, item 1 4) ∷ (2, item 2 2) ∷ []

get-send_mapped_example : get 1 (send_mapped false second_batch channels) ≡ some (item 1 4)
unfolding newest or_else get not_before is_current
get-send_mapped_example = get-send_mapped 1 false second_batch channels

send_mapped-not_before_example :
    (item 1 4 ≡ item 1 4)
    ⊎ (not_before (fprime_gds.History.at 4000) (fprime_gds.History.at 4000) ≡ true)
unfolding get send_mapped merge assign put is_current not_before
send_mapped-not_before_example =
    send_mapped-not_before 1 second_batch channels (item 1 4) (item 1 4) refl refl
