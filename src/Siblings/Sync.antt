-- ===== src/Siblings/Sync.antt =====
-- static/addons/chart-display/sibling.js: no chart is in the set twice, and what syncing does.
use fprime_gds.Siblings.{
  SiblingSet, is_sibling, add, remove, without_first, sync_to_all, sync_leader, sync_each,
  sync_sibling, change, guarded, List, ℕ, ℤ,
}
use fprime_gds.Base.{
  List, ℕ, ◌∷◌, ◌≡◌, Bool-cases, ◌++◌, [], false, inl, some, ◌||◌, ◌==◌, if◌then◌else◌, arith, ◌∙◌,
  inr, ◌&&◌, not, refl, ==_iff, ==_self,
}
use fprime_gds.Base.Int.{ℤ}

unfoldable pub Distinct : List ℕ → Type 0
Distinct [] = Unit
Distinct (k ∷ ks) = (is_sibling k ks ≡ false) × Distinct ks

pub is_sibling-append :
    (k j : ℕ) (ks : List ℕ) → is_sibling k (ks ++ j ∷ []) ≡ (is_sibling k ks || (j == k))
unfolding is_sibling
is_sibling-append k j [] = ground arith
is_sibling-append k j (i ∷ ks) = ground (arith, is_sibling-append k j ks)

append-Distinct :
    (k : ℕ) (ks : List ℕ) → is_sibling k ks ≡ false → Distinct ks → Distinct (ks ++ k ∷ [])
unfolding Distinct is_sibling
append-Distinct k [] h d = (refl, tt)
append-Distinct k (j ∷ ks) h (e, d) =
    (is_sibling-append j k ks ∙ ground (arith, h, e), append-Distinct k ks (ground (arith, h)) d)

without_first-absent :
    (k j : ℕ) (ks : List ℕ) → is_sibling j ks ≡ false → is_sibling j (without_first k ks) ≡ false
unfolding without_first is_sibling
without_first-absent k j [] h = refl
without_first-absent k j (i ∷ ks) h = ground (arith, h, without_first-absent k j ks)

without_first-Distinct : (k : ℕ) (ks : List ℕ) → Distinct ks → Distinct (without_first k ks)
unfolding without_first Distinct
without_first-Distinct k [] d = tt
without_first-Distinct k (j ∷ ks) (e, d) = elim (Bool-cases (j == k)) [
  | inl h ↦ rw h d
  | inr h ↦ rw h (without_first-absent k j ks e, without_first-Distinct k ks d)
]

-- A chart is added or removed.
pub data Change : Type 0 where
  added removed : ℕ → Change

unfoldable pub changed : List Change → SiblingSet → SiblingSet
unfolding add remove
changed [] s = s
changed (added k ∷ cs) s = changed cs (add k s)
changed (removed k ∷ cs) s = changed cs (remove k s)

-- Whatever charts are added and removed, no chart is in the set twice.
pub changed-Distinct :
    (cs : List Change) (s : SiblingSet) → Distinct s.siblings → Distinct (changed cs s).siblings
unfolding changed add remove
changed-Distinct [] s d = d
changed-Distinct (added k ∷ cs) s d =
    changed-Distinct cs (add k s) (elim (Bool-cases (is_sibling k s.siblings)) [
      | inl h ↦ rw h d
      | inr h ↦ rw h (append-Distinct k s.siblings h d)
    ])
changed-Distinct (removed k ∷ cs) s d =
    changed-Distinct cs (remove k s) (elim (Bool-cases (is_sibling k s.siblings)) [
      | inl h ↦ rw h (without_first-Distinct k s.siblings d)
      | inr h ↦ rw h d
    ])

module _ {C : Type 0} (axis : C → ℤ × ℤ) (zoom_scale : ℤ × ℤ → C → C) where
  other :
      (leader : ℕ) (ks : List ℕ) (charts : ℕ → C) (j k : ℕ)
      → is_sibling k ks ≡ false
      → (k == leader) ≡ false
      → (if is_sibling j ks && not (j == leader)
          then zoom_scale
              (axis (sync_sibling axis zoom_scale leader k charts leader))
              (sync_sibling axis zoom_scale leader k charts j)
          else sync_sibling axis zoom_scale leader k charts j)
        ≡ (if (k == j || is_sibling j ks) && not (j == leader)
            then zoom_scale (axis (charts leader)) (charts j)
            else charts j)
  unfolding sync_sibling change
  other leader ks charts j k e h = elim (Bool-cases (j == k)) [
    | inl q ↦ let d : j ≡ k = (==_iff j k).0 q in rw (d, e, h, ==_self k) refl
    | inr q ↦
        let l : (leader == k) ≡ false = ground (arith, h) in
        let r : (k == j) ≡ false = ground (arith, q) in rw (q, l, r) refl
  ]

  sync_each_exact :
      (leader : ℕ) (ks : List ℕ) (charts : ℕ → C) (j : ℕ)
      → Distinct ks
      → sync_each axis zoom_scale leader ks charts j ≡ (
          if is_sibling j ks && not (j == leader)
          then zoom_scale (axis (charts leader)) (charts j)
          else charts j)
  unfolding sync_each sync_sibling change Distinct is_sibling
  sync_each_exact leader [] charts j d = refl
  sync_each_exact leader (k ∷ ks) charts j (e, d) = elim (Bool-cases (k == leader)) [
    | inl h ↦ rw h (sync_each_exact leader ks charts j d ∙ ground (arith, h))
    | inr h ↦ rw h (
        sync_each_exact leader ks (sync_sibling axis zoom_scale leader k charts) j d
        ∙ other leader ks charts j k e h)
  ]

  -- In a set where no chart stands twice, syncing to a leader gives each other sibling, once, the
  -- axis of the leader and leaves every other chart as it is; without the lock nothing changes.
  pub sync_to_all_exact :
      (s : SiblingSet) (leader : ℕ) (charts : ℕ → C) (j : ℕ)
      → Distinct s.siblings
      → sync_to_all axis zoom_scale s (some leader) charts j ≡ (
          if s.in_sync && (is_sibling j s.siblings && not (j == leader))
          then zoom_scale (axis (charts leader)) (charts j)
          else charts j)
  unfolding sync_to_all guarded sync_leader
  sync_to_all_exact s leader charts j d = elim (Bool-cases s.in_sync) [
    | inl h ↦ rw h (sync_each_exact leader s.siblings charts j d)
    | inr h ↦ rw h refl
  ]
