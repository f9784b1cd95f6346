-- ===== src/Siblings.antt =====
-- static/addons/chart-display/sibling.js: the charts that are kept on one time axis.
mod Tests
pub mod Sync
pub mod Added
use fprime_gds.Base.{
  ℕ, Bool, List, false, Option, if◌then◌else◌, ◌∷◌, [], ◌++◌, ◌==◌, some, ◌||◌, none,
}
use fprime_gds.Base.Int.{ℤ}

-- `siblings` refers to charts by their identity.
pub record SiblingSet : Type 0 where
  pub in_sync : Bool
  pub siblings : List ℕ

-- this._siblings.indexOf(sibling) !== -1
unfoldable pub is_sibling : ℕ → List ℕ → Bool
is_sibling k [] = false
is_sibling k (j ∷ js) = (j == k) || is_sibling k js

pub new_set : SiblingSet
new_set = record { in_sync = false; siblings = [] }

pub prime : SiblingSet → Option ℕ
prime s = elim s.siblings [ [] ↦ none | k ∷ ks ↦ some k ]

unfoldable pub add : ℕ → SiblingSet → SiblingSet
unfolding is_sibling
add k s = if is_sibling k s.siblings then s else record s { siblings = s.siblings ++ k ∷ [] }

-- splice(indexOf(sibling), 1)
pub without_first : ℕ → List ℕ → List ℕ
without_first k [] = []
without_first k (j ∷ js) = let rest = without_first k js in if j == k then js else j ∷ rest

pub remove : ℕ → SiblingSet → SiblingSet
unfolding without_first is_sibling
remove k s =
    if is_sibling k s.siblings then record s { siblings = without_first k s.siblings } else s

-- `C` is a chart of the chart library.
module _ {C : Type 0} where
  -- A method of the chart `k` is called.
  pub change : ℕ → (C → C) → (ℕ → C) → ℕ → C
  change k f charts j = if j == k then f (charts j) else charts j

  -- get_guarded_function
  pub guarded : SiblingSet → ((ℕ → C) → ℕ → C) → (ℕ → C) → ℕ → C
  guarded s f charts = if s.in_sync then f charts else charts

  pub change_each : (C → C) → List ℕ → (ℕ → C) → ℕ → C
  unfolding change
  change_each f [] charts = charts
  change_each f (k ∷ ks) charts = change_each f ks (change k f charts)

  -- `set_pause` assigns to options.scales.x.realtime.pause.
  pub pause : (Bool → C → C) → SiblingSet → Bool → (ℕ → C) → ℕ → C
  unfolding guarded change_each
  pause set_pause s on charts = guarded s (change_each (set_pause on) s.siblings) charts

  -- `reset_zoom` is resetZoom("none").
  pub reset : (C → C) → SiblingSet → (ℕ → C) → ℕ → C
  unfolding guarded change_each
  reset reset_zoom s charts = guarded s (change_each reset_zoom s.siblings) charts

-- The bounds of a chart's x axis, and the chart behind zoomScale("x", …, "none").
module _ {C : Type 0} (axis : C → ℤ × ℤ) (zoom_scale : ℤ × ℤ → C → C) where
  pub sync_sibling : ℕ → ℕ → (ℕ → C) → ℕ → C
  unfolding change
  sync_sibling leader follower charts = change follower (zoom_scale (axis (charts leader))) charts

  -- siblings.filter(item => item !== leader).map(…)
  pub sync_each : ℕ → List ℕ → (ℕ → C) → ℕ → C
  unfolding sync_sibling
  sync_each leader [] charts = charts
  sync_each leader (k ∷ ks) charts =
      sync_each leader ks (if k == leader then charts else sync_sibling leader k charts)

  sync_leader : SiblingSet → Option ℕ → (ℕ → C) → ℕ → C
  unfolding sync_each
  sync_leader s none charts = charts
  sync_leader s (some leader) charts = sync_each leader s.siblings charts

  -- syncToAll; `none` for a chart that is null.
  pub sync_to_all : SiblingSet → Option ℕ → (ℕ → C) → ℕ → C
  unfolding guarded sync_leader
  sync_to_all s leader charts = guarded s (sync_leader s leader) charts

  sync_with : Option ℕ → Option ℕ → (ℕ → C) → ℕ → C
  unfolding sync_sibling
  sync_with none sibling charts = charts
  sync_with (some p) none charts = charts
  sync_with (some p) (some k) charts = if p == k then charts else sync_sibling p k charts

  -- sync
  pub sync : SiblingSet → Option ℕ → (ℕ → C) → ℕ → C
  unfolding guarded sync_with prime
  sync s sibling charts = guarded s (sync_with (prime s) sibling) charts
