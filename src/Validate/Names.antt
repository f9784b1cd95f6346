-- ===== src/Validate/Names.antt =====
-- `find_case_insensitive` against the description in its comment.
use fprime_gds.Base.{
  ℕ, List, ◌≡◌, ◌∷◌, true, ◌⊎◌, arith, inl, [], Bool-cases, inr, sym, length, if◌then◌else◌, suc,
  some, ◌≢◌, none, refl, false, Option-cases, Option,
}
use fprime_gds.Base.Text.{Text, text_eq_self, text_eq, text_eq_sound}
use fprime_gds.Validate.{contains, case_matches, only_one, find_case_insensitive}

-- `t` is one of the texts.
abbrev pub OneOf : Text → List Text → Type 0
OneOf t [] = ⊥
OneOf t (p ∷ ps) = (t ≡ p) ⊎ OneOf t ps

contains_sound : (t : Text) (ps : List Text) → contains t ps ≡ true → OneOf t ps
unfolding contains
contains_sound t [] h = ground arith
contains_sound t (p ∷ ps) h = elim (Bool-cases (text_eq p t)) [
  | inl e ↦ inl (sym (text_eq_sound p t e))
  | inr e ↦ inr (contains_sound t ps (ground arith))
]

contains_complete : (t : Text) (ps : List Text) → OneOf t ps → contains t ps ≡ true
unfolding contains
contains_complete t [] h = absurd h
contains_complete t (p ∷ ps) (inl e) = rw e (ground (arith, text_eq_self p))
contains_complete t (p ∷ ps) (inr o) = ground (arith, contains_complete t ps o)

module _ (lower : Text → Text) where
  -- The texts of the list that differ from the token by case only.
  abbrev pub Folds : Text → Text → Type 0
  Folds token p = lower p ≡ lower token

  -- How many there are.
  abbrev pub count_folds : Text → List Text → ℕ
  count_folds token [] = 0
  count_folds token (p ∷ ps) =
      if text_eq (lower p) (lower token) then suc (count_folds token ps) else count_folds token ps

  length-case_matches :
      (token : Text) (ps : List Text)
      → length (case_matches lower (lower token) ps) ≡ count_folds token ps
  unfolding case_matches
  length-case_matches token [] = refl
  length-case_matches token (p ∷ ps) = ground (arith, length-case_matches token ps)

  widen :
      (token p : Text) (ps : List Text) (m : Text)
      → OneOf m ps × Folds token m
      → OneOf m (p ∷ ps) × Folds token m
  widen token p ps m (o, e) = (inr o, e)

  case_matches_sound :
      (token : Text) (ps : List Text) (m : Text)
      → OneOf m (case_matches lower (lower token) ps)
      → OneOf m ps × Folds token m
  unfolding case_matches
  case_matches_sound token [] m h = absurd h
  case_matches_sound token (p ∷ ps) m h = elim (Bool-cases (text_eq (lower p) (lower token))) [
    | inl e ↦ here e (case_matches_sound token ps m) (rw e at h)
    | inr e ↦ widen token p ps m (case_matches_sound token ps m (rw e at h))
  ]
    where
      here :
          text_eq (lower p) (lower token) ≡ true
          → (OneOf m (case_matches lower (lower token) ps) → OneOf m ps × Folds token m)
          → OneOf m (p ∷ case_matches lower (lower token) ps)
          → OneOf m (p ∷ ps) × Folds token m
      here e rest (inl q) = (inl q, rw q (text_eq_sound (lower p) (lower token) e))
      here e rest (inr q) = widen token p ps m (rest q)

  only_one_sound : (ms : List Text) (r : Text) → only_one lower ms ≡ some r → OneOf r ms
  unfolding only_one
  only_one_sound [] r h = cc
  only_one_sound (m ∷ []) r h = inl (cc)
  only_one_sound (m ∷ n ∷ ms) r h = cc

  only_one-none : (ms : List Text) → length ms ≢ 1 → only_one lower ms ≡ none
  unfolding only_one
  only_one-none [] h = refl
  only_one-none (m ∷ []) h = absurd (h refl)
  only_one-none (m ∷ n ∷ ms) h = refl

  only_one-some : (ms : List Text) → length ms ≡ 1 → only_one lower ms ≢ none
  unfolding only_one
  only_one-some [] h e = absurd (omega arith)
  only_one-some (m ∷ []) h e = cc
  only_one-some (m ∷ n ∷ ms) h e = absurd (omega arith)

  -- A token that the list holds is returned as it is. Any other is answered by the one text of the
  -- list that differs from it by case only, and by nothing if there are none or several of these.
  pub find_case_insensitive_exact :
      (token : Text) (possible : List Text)
      → (OneOf token possible → find_case_insensitive lower (some token) possible ≡ some token)
        × (¬ OneOf token possible
            → count_folds token possible ≢ 1
            → find_case_insensitive lower (some token) possible ≡ none)
        × (¬ OneOf token possible
            → count_folds token possible ≡ 1
            → (r : Text) × (find_case_insensitive lower (some token) possible ≡ some r)
              × OneOf r possible
              × Folds token r)
  unfolding find_case_insensitive
  find_case_insensitive_exact token possible = (
    λ o. rw (contains_complete token possible o),
    λ n c. rw (absent n) (only_one-none found (rw length-case_matches c)),
    λ n c. elim (Option-cases (only_one lower found)) [
      | inl e ↦ absurd (only_one-some found (rw length-case_matches c) e)
      | inr (r, e) ↦
          (let s = case_matches_sound token possible r (only_one_sound found r e) in
            (r, rw (absent n) e, s.0, s.1))
    ],
  )
    where
      found : List Text
      found = case_matches lower (lower token) possible

      absent : ¬ OneOf token possible → contains token possible ≡ false
      absent n = elim (Bool-cases (contains token possible)) [
        | inl e ↦ absurd (n (contains_sound token possible e))
        | inr e ↦ e
      ]

  -- What is returned is a text of the list, and it is its own answer.
  pub find_case_insensitive_idem :
      (value : Option Text) (possible : List Text) (r : Text)
      → find_case_insensitive lower value possible ≡ some r
      → find_case_insensitive lower (some r) possible ≡ some r
  unfolding find_case_insensitive
  find_case_insensitive_idem none possible r h = cc
  find_case_insensitive_idem (some token) possible r h =
      elim (Bool-cases (contains token possible)) [
        | inl e ↦ (let q : token ≡ r = ground arith in rw (← q) (rw e))
        | inr e ↦ rw (
            contains_complete r possible
              (case_matches_sound token possible r
                (only_one_sound (case_matches lower (lower token) possible) r (ground arith))).0)
      ]
