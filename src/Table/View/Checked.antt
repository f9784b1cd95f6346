-- ===== src/Table/View/Checked.antt =====
-- static/js/vue-support/fptable.js: what the boxes of the rows do to the view.
use fprime_gds.Validate.{contains}
use fprime_gds.Table.{Table, Binding, searched, List, Text, text_eq}
use fprime_gds.Table.View.{without_name, checked_view, checked_child, check_each, check_all}
use fprime_gds.Base.{
  List, ◌∷◌, ◌≡◌, Bool, ◌++◌, false, [], Bool-cases, if◌then◌else◌, arith, ◌∙◌, inl, ◌||◌, inr,
  refl, ap, true, sym, some, none,
}
use fprime_gds.Base.Text.{Text, text_eq, text_eq_sound}

-- No name stands twice in a view.
unfoldable pub Distinct : List Text → Type 0
Distinct [] = Unit
Distinct (v ∷ vs) = (contains v vs ≡ false) × Distinct vs

contains-append :
    (m n : Text) (vs : List Text) → contains m (vs ++ n ∷ []) ≡ (contains m vs || text_eq n m)
unfolding contains
contains-append m n [] = ground arith
contains-append m n (v ∷ vs) = ground (arith, contains-append m n vs)

contains-without_name :
    (m n : Text) (vs : List Text)
    → Distinct vs
    → contains m (without_name n vs) ≡ (if text_eq n m then false else contains m vs)
unfolding contains without_name Distinct
contains-without_name m n [] d = ground arith
contains-without_name m n (v ∷ vs) (h, d) = elim (Bool-cases (text_eq v n)) [
  | inl e ↦
      let s : v ≡ n = text_eq_sound v n e in
      rw e (elim (Bool-cases (text_eq n m)) [
        | inl q ↦ rw q (ap (λ x. contains x vs) (sym (s ∙ text_eq_sound n m q)) ∙ h)
        | inr q ↦ let f : text_eq v m ≡ false = ap (λ x. text_eq x m) s ∙ q in rw (q, f) refl
      ])
  | inr e ↦ rw e (elim (Bool-cases (text_eq n m)) [
    | inl q ↦
        let f : text_eq v m ≡ false = ap (text_eq v) (sym (text_eq_sound n m q)) ∙ e in
        rw (q, f) (contains-without_name m n vs d ∙ rw q refl)
    | inr q ↦ rw q (ground (arith, contains-without_name m n vs d, q))
  ])
]

text_eq_sym : (s t : Text) → text_eq s t ≡ text_eq t s
unfolding text_eq
text_eq_sym [] [] = refl
text_eq_sym [] (y ∷ t) = refl
text_eq_sym (x ∷ s) [] = refl
text_eq_sym (x ∷ s) (y ∷ t) = ground (arith, text_eq_sym s t)

append-Distinct :
    (n : Text) (vs : List Text) → contains n vs ≡ false → Distinct vs → Distinct (vs ++ n ∷ [])
unfolding Distinct contains
append-Distinct n [] h d = (refl, tt)
append-Distinct n (v ∷ vs) h (e, d) = (
  contains-append v n vs ∙ ground (arith, h, e, text_eq_sym n v),
  append-Distinct n vs (ground (arith, h)) d,
)

without_name-Distinct : (n : Text) (vs : List Text) → Distinct vs → Distinct (without_name n vs)
unfolding without_name Distinct
without_name-Distinct n [] d = tt
without_name-Distinct n (v ∷ vs) (e, d) = elim (Bool-cases (text_eq v n)) [
  | inl h ↦ rw h d
  | inr h ↦ rw h (contains-without_name v n vs d ∙ ground (arith, e), without_name-Distinct n vs d)
]

checked_view-Distinct :
    (n : Text) (value : Bool) (vs : List Text) → Distinct vs → Distinct (checked_view n value vs)
unfolding checked_view
checked_view-Distinct n true vs d = elim (Bool-cases (contains n vs)) [
  | inl h ↦ rw h d
  | inr h ↦ rw h (append-Distinct n vs h d)
]
checked_view-Distinct n false vs d = elim (Bool-cases (contains n vs)) [
  | inl h ↦ rw h (without_name-Distinct n vs d)
  | inr h ↦ rw h d
]

checked_view-contains :
    (m n : Text) (value : Bool) (vs : List Text)
    → Distinct vs
    → contains m (checked_view n value vs) ≡ (if text_eq n m then value else contains m vs)
unfolding checked_view
checked_view-contains m n value vs d =
    ground (arith, contains-append m n vs, contains-without_name m n vs d, text_eq_sound n m)

module _ {A : Type 0} (b : Binding A) where
  -- An item of the list has the name `m`.
  unfoldable pub is_named : Text → List A → Bool
  is_named m [] = false
  is_named m (x ∷ xs) = text_eq (b.item_to_view_name x) m || is_named m xs

  check_each-contains :
      (m : Text) (xs : List A) (value : Bool) (t : Table)
      → Distinct t.view
      → contains m (check_each b xs value t).view
        ≡ (if is_named m xs then value else contains m t.view)
  unfolding check_each checked_child is_named
  check_each-contains m [] value t d = refl
  check_each-contains m (x ∷ xs) value t d =
      check_each-contains m xs value (checked_child b x value t)
        (checked_view-Distinct (b.item_to_view_name x) value t.view d)
      ∙ ground (arith, checked_view-contains m (b.item_to_view_name x) value t.view d)

  -- In a view without repeated names, checking or unchecking all of a list of items puts in, or takes
  -- out, the names of the items that the search has found, and leaves every other name in or out;
  -- without a list of items it fails.
  pub check_all-contains :
      (lower : Text → Text) (items : List A) (value : Bool) (t : Table) (m : Text)
      → Distinct t.view
      → ((u : Table) × (check_all b lower (some items) value t ≡ some u)
          × (contains m u.view
              ≡ (if is_named m (searched b lower t items) then value else contains m t.view)))
        × (check_all b lower none value t ≡ none)
  unfolding check_all
  check_all-contains lower items value t m d =
      ((_, refl, check_each-contains m (searched b lower t items) value t d), refl)
