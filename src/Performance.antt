-- ===== src/Performance.antt =====
-- static/js/performance.js: the readings of the responsiveness, and the objects whose sizes are
-- shown.
mod Tests
pub mod Readings
pub mod Cached
pub mod Statistics
use fprime_gds.Base.Store.{set_key}
use fprime_gds.Base.{ℕ, Option, some, List, suc, none, last_n, [], ◌++◌, ◌∷◌, zero, if◌then◌else◌}
use fprime_gds.Base.Text.{text_eq, Text}
use fprime_gds.Base.Int.{ℤ, pos, ◌-ℤ◌, ltb_ℤ}

-- Times are in milliseconds; a reading may be negative.
pub record ResponsiveChecker : Type 0 where
  pub start : Option ℕ
  pub last : List ℤ
  pub resolution : ℕ
  pub window_size : ℕ

default_number : Option ℕ → ℕ → ℕ
default_number none d = d
default_number (some zero) d = d
default_number (some (suc n)) d = suc n

pub new_checker : Option ℕ → Option ℕ → ResponsiveChecker
unfolding default_number
new_checker resolution window = record {
  start = none;
  last = [];
  resolution = default_number resolution 100;
  window_size = default_number window 100;
}

-- now - (this.start || now) - this.resolution
pub reading : Option ℕ → ℕ → ℕ → ℤ
reading none resolution now = pos 0 -ℤ pos resolution
reading (some start) resolution now = (pos now -ℤ pos start) -ℤ pos resolution

pub checker : ℕ → ResponsiveChecker → ResponsiveChecker
unfolding reading
checker now c = record c {
  start = some now;
  last = last_n c.window_size (c.last ++ reading c.start c.resolution now ∷ []);
}

-- Math.max(...); `none` for the -Infinity of an empty list.
pub max_of : List ℤ → Option ℤ
max_of [] = none
max_of (x ∷ xs) = elim (max_of xs) [ none ↦ some x | some y ↦ some (if ltb_ℤ x y then y else x) ]

pub responsiveness : ResponsiveChecker → Option ℤ
unfolding max_of
responsiveness c = max_of c.last

-- this.cached_objects, by name, with the length that is read of each object.
pub add_caching_object : Text → ℕ → List (Text × ℕ) → List (Text × ℕ)
unfolding set_key
add_caching_object name size objects = set_key name size objects

-- delete this.cached_objects[name]
pub remove_caching_object : Text → List (Text × ℕ) → List (Text × ℕ)
unfolding text_eq
remove_caching_object name [] = []
remove_caching_object name ((k, n) ∷ objects) =
    let rest = remove_caching_object name objects in if text_eq k name then rest else (k, n) ∷ rest
