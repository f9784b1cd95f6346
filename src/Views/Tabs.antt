-- ===== src/Views/Tabs.antt =====
-- static/js/vue-support/tabetc.js: the tab that is shown, and the orb of active data.
mod Tests
use fprime_gds.Base.{◌==◌, [], ◌∷◌, List, Bool, if◌then◌else◌, ◌||◌, ◌&&◌, false, ◌++◌}
use fprime_gds.Base.Text.{Text, codes, is_prefix}

-- `hash` is the one of the address of the page.
pub record Tabs : Type 0 where
  pub current_tab : Text
  pub hash : Text

-- window.location.hash.replace("#", ""), of a hash that begins with # or is "".
without_hash : Text → Text
without_hash [] = []
without_hash (c ∷ cs) = if c == b'#' then cs else c ∷ without_hash cs

or_commanding : Text → Text
or_commanding [] = codes "Commanding"
or_commanding (c ∷ cs) = c ∷ cs

-- The data of the component when it is created.
pub new_tabs : Text → Tabs
unfolding without_hash or_commanding
new_tabs hash = record { current_tab = or_commanding (without_hash hash); hash = hash }

-- The browser puts # in front of the hash that is assigned; a tab has a name without one.
pub route : Text → Tabs → Tabs
route tab t = record { current_tab = tab; hash = codes "#" ++ tab }

-- orb, over the flags of the store
orb_from : Bool → List (Text × Bool) → Bool
unfolding is_prefix
orb_from orb [] = orb
orb_from orb ((key, flag) ∷ flags) =
    orb_from (orb || (is_prefix (codes "active_") key && flag)) flags

pub orb : List (Text × Bool) → Bool
unfolding orb_from
orb flags = orb_from false flags
