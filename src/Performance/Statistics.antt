-- ===== src/Performance/Statistics.antt =====
-- static/js/performance.js: the statistics of the client and the delay behind real time.
mod Tests
use fprime_gds.Base.{none, some, [], ◌∷◌, List, ℕ, Option, ◌+◌, map}
use fprime_gds.Base.Text.{Text, codes}
use fprime_gds.Base.Int.{ℤ, pos, ◌-ℤ◌}
use fprime_gds.Base.Store.{set_key}
use fprime_gds.History.{Time, Datetime, time_to_date}
use fprime_gds.Performance.{max_of}

-- Object.assign(target, source)
assign_all : {A : Type 0} → List (Text × A) → List (Text × A) → List (Text × A)
unfolding set_key
assign_all target [] = target
assign_all target ((k, a) ∷ source) = assign_all (set_key k a target) source

-- The cached items of updateStats, of the lengths of the histories and the cached objects.
pub cached_items : ℕ → ℕ → ℕ → List (Text × ℕ) → List (Text × ℕ)
unfolding assign_all
cached_items events commands channels cached_objects =
    assign_all
      ((codes "total", events + commands + channels)
        ∷ (codes "events", events)
        ∷ (codes "commands", commands)
        ∷ (codes "channels", channels)
        ∷ [])
      cached_objects

largest : Text × List ℤ → Text × Option ℤ
unfolding max_of
largest (k, times) = (k, max_of times)

-- The request times of updateStats: the longest of each kind, `none` for -Infinity.
pub new_times : List (Text × List ℤ) → List (Text × Option ℤ)
unfolding largest
new_times times = map largest times

-- What is read of an item: its datetime, and its time.
pub date_of_item : Datetime × Time → ℕ
date_of_item (Datetime.at ms, t) = ms
date_of_item (d, t) = time_to_date t

-- send: the longest delay of the new items, `none` for the -Infinity of none.
pub send : ℕ → List (Datetime × Time) → Option ℤ
unfolding max_of date_of_item ◌-ℤ◌
send now items = max_of (map (λ i. pos now -ℤ pos (date_of_item i)) items)
