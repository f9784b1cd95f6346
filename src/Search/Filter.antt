-- ===== src/Search/Filter.antt =====
-- static/js/vue-support/utils.js: which items `filter` keeps.
use fprime_gds.Search.{
  filter, filter_items, all_found, any_found, preprocess_matchings, Matching, Text, List,
}
use fprime_gds.Base.Text.{Text, includes}
use fprime_gds.Base.{List, ◌∷◌, ◌≡◌, true, [], ◌⊎◌, ◌↔◌, arith, refl, Bool-cases, inl, inr}

-- A group names a text that stands in `s`.
pub Names : Text → List Text → Type 0
Names s [] = ⊥
Names s (t ∷ ts) = (includes t s ≡ true) ⊎ Names s ts

-- Every group does.
pub Matches : Text → List (List Text) → Type 0
Matches s [] = Unit
Matches s (g ∷ gs) = Names s g × Matches s gs

Names-iff : (s : Text) (ts : List Text) → (any_found s ts ≡ true) ↔ Names s ts
unfolding any_found Names
Names-iff s [] = ground arith
Names-iff s (t ∷ ts) = ground (arith, Names-iff s ts)

-- `ys` are the elements of `xs` with the property, in their order.
pub data Sifted {A : Type 0} (P : A → Type 0) : List A → List A → Type 0 where
  ended : Sifted P [] []
  kept : {x : A} {xs ys : List A} → P x → Sifted P xs ys → Sifted P (x ∷ xs) (x ∷ ys)
  dropped : {x : A} {xs ys : List A} → ¬ (P x) → Sifted P xs ys → Sifted P (x ∷ xs) ys

module _ (lower : Text → Text) where
  Matches-iff :
      (s : Text) (gs : List (List Text)) → (all_found lower s gs ≡ true) ↔ Matches (lower s) gs
  unfolding all_found Matches
  Matches-iff s [] = (λ h. tt, λ h. refl)
  Matches-iff s (g ∷ gs) = ground (arith, Matches-iff s gs, Names-iff (lower s) g)

  filter_items-Sifted :
      {A : Type 0} (stringer : A → Text) (gs : List (List Text)) (xs : List A)
      → Sifted (λ x. Matches (lower (stringer x)) gs) xs (filter_items lower stringer gs xs)
  unfolding filter_items
  filter_items-Sifted stringer gs [] = ended
  filter_items-Sifted stringer gs (x ∷ xs) = elim (Bool-cases (all_found lower (stringer x) gs)) [
    | inl e ↦ rw e (kept ((Matches-iff (stringer x) gs).0 e) (filter_items-Sifted stringer gs xs))
    | inr e ↦ rw e (
        dropped (λ m. cc (e, (Matches-iff (stringer x) gs).1 m))
          (filter_items-Sifted stringer gs xs))
  ]

  -- `filter` keeps, in their order, the items whose text in lower case holds for each group of the
  -- search one of the group's tokens, and drops all others.
  pub filter-Sifted :
      {A : Type 0} (items : List A) (m : Matching) (stringer : A → Text)
      → Sifted
          (λ x. Matches (lower (stringer x)) (preprocess_matchings lower m))
          items
          (filter lower items m stringer)
  unfolding filter
  filter-Sifted items m stringer = filter_items-Sifted stringer (preprocess_matchings lower m) items
