-- ===== src/Siblings/Tests.antt =====
-- Three charts that are their own axis.
use fprime_gds.Base.{refl, List, ◌≡◌, true, ℕ, some, ◌∷◌, [], ◌+◌}
use fprime_gds.Siblings.{
  SiblingSet, new_set, sync_to_all, is_sibling, add, remove, without_first, ℤ,
}
use fprime_gds.Siblings.Sync.{
  Distinct, Change, added, removed, changed, changed-Distinct, sync_to_all_exact,
}
use fprime_gds.Base.Int.{ℤ, pos}

abbrev steps : List Change
steps = added 1 ∷ added 2 ∷ added 1 ∷ removed 2 ∷ added 3 ∷ []

changed-Distinct_kept : Distinct (changed steps new_set).siblings
unfolding Distinct new_set
changed-Distinct_kept = changed-Distinct steps new_set tt

members : (changed steps new_set).siblings ≡ 1 ∷ 3 ∷ []
unfolding changed add remove without_first is_sibling new_set
members = refl

abbrev locked : SiblingSet
locked = record { in_sync = true; siblings = 1 ∷ 2 ∷ 3 ∷ [] }

abbrev own_axis : ℤ × ℤ → ℤ × ℤ
own_axis x = x

abbrev zoomed : ℤ × ℤ → ℤ × ℤ → ℤ × ℤ
zoomed x chart = x

abbrev charts : ℕ → ℤ × ℤ
charts k = (pos k, pos (k + 10))

sync_to_all_exact_example : sync_to_all own_axis zoomed locked (some 2) charts 3 ≡ (pos 2, pos 12)
unfolding is_sibling Distinct
sync_to_all_exact_example =
    sync_to_all_exact own_axis zoomed locked 2 charts 3 (refl, (refl, (refl, tt)))
