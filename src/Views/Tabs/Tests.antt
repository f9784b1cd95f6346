-- ===== src/Views/Tabs/Tests.antt =====
-- The first tab, and flags of data.
use fprime_gds.Base.{refl, ◌≡◌, ◌∷◌, [], true, false}
use fprime_gds.Base.Text.{codes}
use fprime_gds.Views.Tabs.{new_tabs, route, orb, orb_from}

tabs :
    ((new_tabs []).current_tab ≡ codes "Commanding")
    × ((new_tabs (codes "#Charts")).current_tab ≡ codes "Charts")
    × ((new_tabs (route (codes "Logs") (new_tabs [])).hash).current_tab ≡ codes "Logs")
unfolding new_tabs route
tabs = (refl, refl, refl)

orbs :
    (orb ((codes "loaded", true) ∷ (codes "active_events", false) ∷ []) ≡ false)
    × (orb ((codes "active_channels", true) ∷ (codes "active_events", false) ∷ []) ≡ true)
unfolding orb orb_from
orbs = (refl, refl)
