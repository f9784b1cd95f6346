-- ===== src/Performance/Statistics/Tests.antt =====
-- Statistics of a page with a chart.
use fprime_gds.Base.{refl, some, ◌≡◌, ◌∷◌, []}
use fprime_gds.Base.Text.{codes}
use fprime_gds.Base.Int.{pos}
use fprime_gds.History.{Datetime}
use fprime_gds.Performance.Statistics.{cached_items, new_times, send, largest}

with_chart :
    cached_items 3 2 1 ((codes "Chart 0", 9) ∷ [])
    ≡ (codes "total", 6)
      ∷ (codes "events", 3)
      ∷ (codes "commands", 2)
      ∷ (codes "channels", 1)
      ∷ (codes "Chart 0", 9)
      ∷ []
unfolding cached_items
with_chart = refl

longest :
    new_times ((codes "events", pos 3 ∷ pos 8 ∷ []) ∷ []) ≡ (codes "events", some (pos 8)) ∷ []
unfolding new_times largest
longest = refl

-- The longer of two delays.
delay :
    send 9000 (
      (Datetime.at 8500, record { seconds = 0; microseconds = 0 })
      ∷ (Datetime.at 7000, record { seconds = 0; microseconds = 0 })
      ∷ [])
    ≡ some (pos 2000)
unfolding send
delay = refl
