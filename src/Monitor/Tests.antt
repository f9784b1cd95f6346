-- ===== src/Monitor/Tests.antt =====
-- A validator with a log of two errors.
use fprime_gds.Base.{refl, some, ◌≡◌, List, none, ℕ, Option, ◌∷◌, [], length, ◌≤◌}
use fprime_gds.Base.Store.{find_key}
use fprime_gds.Monitor.{
  LoadValidator, new_validator, update_dropped, update_timing, count_of, count_items,
  window_samples, times_of, or_else_number, or_zero, has_key, counted_key, codes, Text, ◌-ℤ◌,
}
use fprime_gds.Monitor.Windows.{
  update_errors_all, update_errors_all-reported, reported, update_timing-window,
}
use fprime_gds.Monitor.Counts.{
  update_dropped-exact, update_dropped_all, received, count_items_exact, with_key,
}
use fprime_gds.Base.Text.{codes, text_eq, Text}
use fprime_gds.Base.Int.{◌-ℤ◌, pos}

abbrev small : LoadValidator
small = new_validator (some 2)

update_errors_all-reported_example :
    let w = update_errors_all ((codes "a" ∷ codes "b" ∷ []) ∷ (codes "c" ∷ []) ∷ []) small in
    (w.backlog ≡ codes "b" ∷ codes "c" ∷ []) × (count_of (codes "GDS_Errors") w.counts ≡ 3)
unfolding new_validator or_else_number reported count_of or_zero find_key
update_errors_all-reported_example =
    update_errors_all-reported (codes "a" ∷ codes "b" ∷ []) ((codes "c" ∷ []) ∷ []) small

samples : window_samples 300000 1000 ≡ 300
unfolding window_samples
samples = refl

window_of_timings :
    let ts = times_of (
      find_key (codes "events") (update_timing (codes "events") none 7000 (some 35) small).times) in
    (ts ≡ 35 ∷ []) × (length ts ≤ 300)
unfolding new_validator or_else_number times_of window_samples find_key
window_of_timings = update_timing-window (codes "events") none 7000 35 small

-- Five items of eight have arrived.
update_dropped-exact_example :
    find_key
      (codes "events")
      (update_dropped (codes "events") 2 (some 8) (
        update_dropped_all
          ((codes "events", 3, none) ∷ (codes "channels", 4, some 4) ∷ [])
          small)).dropped
    ≡ some (pos 3)
unfolding new_validator or_else_number count_of or_zero find_key received text_eq ◌-ℤ◌
update_dropped-exact_example =
    update_dropped-exact ((codes "events", 3, none) ∷ (codes "channels", 4, some 4) ∷ [])
      (codes "events") 2 7 small

abbrev summary : List (Text × ℕ)
summary = (codes "FATAL", 0) ∷ (codes "WARNING_HI", 0) ∷ []

abbrev keep_text : Text → Option Text
keep_text t = some t

counted_batch :
    count_of (codes "FATAL") (
      count_items keep_text summary
        (some (codes "FATAL") ∷ none ∷ some (codes "DIAGNOSTIC") ∷ some (codes "FATAL") ∷ [])
        summary)
    ≡ 2
unfolding count_of or_zero find_key has_key with_key counted_key text_eq
counted_batch =
    count_items_exact keep_text summary
      (some (codes "FATAL") ∷ none ∷ some (codes "DIAGNOSTIC") ∷ some (codes "FATAL") ∷ []) summary
      (codes "FATAL")
