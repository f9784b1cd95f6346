-- ===== src/Settings/Intervals.antt =====
-- static/js/settings.js and static/addons/advanced-settings/addon.js: the intervals of the pollers.
use fprime_gds.Base.{
  refl, none, some, [], ◌∷◌, List, ℕ, suc, zero, Option, ◌≡◌, ◌<◌, arith, inl, inr, Bool-cases,
  true, ==_self, map,
}
use fprime_gds.Base.Text.{Text, text_eq, codes}
use fprime_gds.Base.Store.{find_key, set_key}
use fprime_gds.Monitor.{or_else_number}
use fprime_gds.Settings.{
  Settings, setup_polling_settings, set_intervals, interval_for, changed_keys, intervals_changed,
  same_interval, key_of,
}

-- No interval is 0, which would poll without a pause.
unfoldable pub AllPositive : List (Text × ℕ) → Type 0
AllPositive [] = Unit
AllPositive ((k, n) ∷ m) = (0 < n) × AllPositive m

or_else_number-positive : (o : Option ℕ) (d : ℕ) → 0 < d → 0 < or_else_number o d
unfolding or_else_number
or_else_number-positive none d h = h
or_else_number-positive (some zero) d h = h
or_else_number-positive (some (suc n)) d h = omega arith

set_key-AllPositive :
    (k : Text) (n : ℕ) (m : List (Text × ℕ)) → 0 < n → AllPositive m → AllPositive (set_key k n m)
unfolding set_key AllPositive
set_key-AllPositive k n [] h a = (h, tt)
set_key-AllPositive k n ((j, i) ∷ m) h (p, a) = elim (Bool-cases (text_eq j k)) [
  | inl e ↦ rw e (h, a)
  | inr e ↦ rw e (p, set_key-AllPositive k n m h a)
]

interval_for-positive : (config : List (Text × ℕ)) (k : Text) → 0 < interval_for config k
unfolding interval_for
interval_for-positive config k =
    or_else_number-positive (find_key k config) _
      (or_else_number-positive (find_key (codes "default") config) 1000 (omega arith))

set_intervals-AllPositive :
    (config : List (Text × ℕ)) (keys : List Text) (m : List (Text × ℕ))
    → AllPositive m
    → AllPositive (set_intervals config keys m)
unfolding set_intervals
set_intervals-AllPositive config [] m a = a
set_intervals-AllPositive config (k ∷ ks) m a =
    set_intervals-AllPositive config ks (set_key k (interval_for config k) m)
      (set_key-AllPositive k (interval_for config k) m (interval_for-positive config k) a)

-- Whatever is configured, a zero included, no poller gets an interval of 0.
pub setup_polling_settings-AllPositive :
    (config : List (Text × ℕ)) (keys : List Text) (s : Settings)
    → AllPositive s.polling_intervals
    → AllPositive (setup_polling_settings config keys s).polling_intervals
unfolding setup_polling_settings
setup_polling_settings-AllPositive config keys s a =
    set_intervals-AllPositive config keys s.polling_intervals a

same_interval_self : (o : Option ℕ) → same_interval o o ≡ true
unfolding same_interval
same_interval_self none = refl
same_interval_self (some n) = ==_self n

unchanged_keys : (polling : List (Text × ℕ)) (ks : List Text) → changed_keys polling polling ks ≡ []
unfolding changed_keys
unchanged_keys polling [] = refl
unchanged_keys polling (k ∷ ks) =
    rw (same_interval_self (find_key k polling)) (unchanged_keys polling ks)

-- Intervals that were handled are not handled again: with what the handler kept, nothing is
-- registered.
pub intervals_changed-settles :
    (polling old : List (Text × ℕ))
    → (intervals_changed polling (intervals_changed polling old).1).0 ≡ []
unfolding intervals_changed
intervals_changed-settles polling old = unchanged_keys polling (map key_of polling)
