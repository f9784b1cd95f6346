-- ===== src/Settings.antt =====
-- static/js/settings.js, and the settings of static/addons/advanced-settings/addon.js: the intervals of
-- the pollers, what is polled anew when they change, and the clearing of the errors.
mod Tests
pub mod Intervals
use fprime_gds.Base.{
  none, some, [], ◌∷◌, List, ℕ, Option, Bool, if◌then◌else◌, true, false, not, ◌==◌, map,
}
use fprime_gds.Base.Text.{Text, codes}
use fprime_gds.Base.Int.{ℤ, pos, negsuc}
use fprime_gds.Base.Store.{find_key, set_key}
use fprime_gds.Monitor.{LoadValidator, or_else_number}

pub record Settings : Type 0 where
  pub event_buffer_size : ℤ
  pub command_buffer_size : ℤ
  pub response_object_limit : ℕ
  pub compact_commanding : Bool
  pub channels_display_last_received : Bool
  pub polling_intervals : List (Text × ℕ)

pub new_settings : Settings
new_settings = record {
  event_buffer_size = negsuc 0;
  command_buffer_size = negsuc 0;
  response_object_limit = 6000;
  compact_commanding = false;
  channels_display_last_received = true;
  polling_intervals = [];
}

-- config.dataPollIntervalsMs[key] || config.dataPollIntervalsMs.default || 1000
pub interval_for : List (Text × ℕ) → Text → ℕ
unfolding find_key or_else_number
interval_for config key =
    or_else_number (find_key key config) (or_else_number (find_key (codes "default") config) 1000)

pub set_intervals : List (Text × ℕ) → List Text → List (Text × ℕ) → List (Text × ℕ)
unfolding interval_for set_key
set_intervals config [] intervals = intervals
set_intervals config (k ∷ ks) intervals =
    set_intervals config ks (set_key k (interval_for config k) intervals)

-- setupPollingSettings; `config` is config.dataPollIntervalsMs.
pub setup_polling_settings : List (Text × ℕ) → List Text → Settings → Settings
unfolding set_intervals
setup_polling_settings config keys s = record s {
  polling_intervals = set_intervals config keys s.polling_intervals;
}

-- ===, on what a key has
same_interval : Option ℕ → Option ℕ → Bool
same_interval none none = true
same_interval none (some n) = false
same_interval (some m) none = false
same_interval (some m) (some n) = m == n

pub key_of : Text × ℕ → Text
key_of (k, n) = k

-- The keys whose poller is registered again.
pub changed_keys : List (Text × ℕ) → List (Text × ℕ) → List Text → List Text
unfolding same_interval find_key
changed_keys polling old [] = []
changed_keys polling old (k ∷ ks) =
    let rest = changed_keys polling old ks in
    if same_interval (find_key k polling) (find_key k old) then rest else k ∷ rest

-- The handler of "settings.Polling_Intervals": what is registered again, and the new old_polling.
pub intervals_changed : List (Text × ℕ) → List (Text × ℕ) → List Text × List (Text × ℕ)
unfolding changed_keys key_of
intervals_changed polling old = (changed_keys polling old (map key_of polling), polling)

-- clearErrors
pub clear_errors : LoadValidator → LoadValidator
unfolding set_key
clear_errors v = record v { backlog = []; counts = set_key (codes "GDS_Errors") 0 v.counts }
