-- ===== src/Base/Store.antt =====
-- JavaScript objects used as maps: association lists by text.
use mathlib.Core.Path.{◌≡◌, refl, ap, ◌∙◌}
use mathlib.Core.Bool.{false}
use mathlib.Core.Logic.{inl, inr}
use mathlib.Core.Option.{Option, none, some}
use mathlib.Core.List.{List, [], ◌∷◌}
use fprime_gds.Base.Tests.{if◌then◌else◌, Bool-cases}
use fprime_gds.Base.Text.{Text, text_eq, text_eq_self, text_eq_sound}

module _ {A : Type 0} where
  unfoldable pub find_key : Text → List (Text × A) → Option A
  unfolding text_eq
  find_key k [] = none
  find_key k ((j, a) ∷ m) = if text_eq j k then some a else find_key k m

  unfoldable pub set_key : Text → A → List (Text × A) → List (Text × A)
  unfolding text_eq
  set_key k a [] = (k, a) ∷ []
  set_key k a ((j, b) ∷ m) = if text_eq j k then (k, a) ∷ m else (j, b) ∷ set_key k a m

  pub find_key-set_key_self :
      (k : Text) (a : A) (m : List (Text × A)) → find_key k (set_key k a m) ≡ some a
  unfolding find_key set_key
  find_key-set_key_self k a [] = rw (text_eq_self k) refl
  find_key-set_key_self k a ((j, b) ∷ m) = elim (Bool-cases (text_eq j k)) [
    | inl e ↦ rw e (rw (text_eq_self k) refl)
    | inr e ↦ rw e (rw e (find_key-set_key_self k a m))
  ]

  pub find_key-set_key_ne :
      (k l : Text) (a : A) (m : List (Text × A))
      → text_eq k l ≡ false
      → find_key l (set_key k a m) ≡ find_key l m
  unfolding find_key set_key
  find_key-set_key_ne k l a [] h = rw h refl
  find_key-set_key_ne k l a ((j, b) ∷ m) h = elim (Bool-cases (text_eq j k)) [
    | inl e ↦
        let d : j ≡ k = text_eq_sound j k e in
        let f : text_eq j l ≡ false = ap (λ t. text_eq t l) d ∙ h in rw e (rw (h, f) refl)
    | inr e ↦ rw e (ap (λ o. if text_eq j l then some b else o) (find_key-set_key_ne k l a m h))
  ]
