-- ===== src/Settings/Tests.antt =====
-- Intervals that are configured, missing and 0, and what is polled anew.
use fprime_gds.Base.{refl, ◌≡◌, ◌∷◌, []}
use fprime_gds.Base.Text.{codes}
use fprime_gds.Settings.{
  new_settings, setup_polling_settings, intervals_changed, set_intervals, interval_for,
}
use fprime_gds.Settings.Intervals.{AllPositive, setup_polling_settings-AllPositive}

default_intervals :
    (setup_polling_settings
      ((codes "channels", 500) ∷ (codes "events", 0) ∷ (codes "default", 800) ∷ [])
      (codes "channels" ∷ codes "events" ∷ [])
      new_settings).polling_intervals
    ≡ (codes "channels", 500) ∷ (codes "events", 800) ∷ []
unfolding setup_polling_settings new_settings set_intervals interval_for
default_intervals = refl

-- An interval of 0 is configured.
zero_is_not_taken :
    AllPositive
      (setup_polling_settings
        ((codes "events", 0) ∷ [])
        (codes "events" ∷ [])
        new_settings).polling_intervals
unfolding AllPositive new_settings
zero_is_not_taken =
    setup_polling_settings-AllPositive ((codes "events", 0) ∷ []) (codes "events" ∷ []) new_settings
      tt

one_changed :
    (intervals_changed
      ((codes "a", 1) ∷ (codes "b", 2) ∷ [])
      ((codes "a", 1) ∷ (codes "b", 3) ∷ [])).0
    ≡ codes "b" ∷ []
unfolding intervals_changed
one_changed = refl
