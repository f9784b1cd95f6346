-- ===== src/Table/Columns/Cells.antt =====
-- static/js/vue-support/fptable.js and fp-row.js: headers and cells of the columns that are shown.
use fprime_gds.Base.{
  some, sym, Bool-cases, Option-cases, ◌∙◌, true, inl, ap, inr, List, ℕ, ◌∷◌, ◌≤◌, ◌<◌, get_elem?,
  arith, ◌≡◌, [], ◌+◌, ◌-◌, false, ℕ_discrete, ◌==◌, refl, suc,
}
use fprime_gds.Table.Columns.{
  index_of, indices_of, visible_indices, known_fields, calculated_header_columns, has_index,
  cells_from, calculated_columns, List, ℕ, Text, keep,
}
use fprime_gds.Base.Text.{Text, text_eq, text_eq_sound}

-- The columns at the indices, in their order.
unfoldable pub picked : List ℕ → List Text → List Text
picked [] columns = []
picked (i ∷ is) columns = keep (get_elem? columns i) (picked is columns)

-- The indices grow, from `n` on.
unfoldable pub Growing : ℕ → List ℕ → Type 0
Growing n [] = Unit
Growing n (i ∷ is) = (n ≤ i) × Growing (i + 1) is

weaker : (m n : ℕ) (is : List ℕ) → m ≤ n → Growing n is → Growing m is
unfolding Growing
weaker m n [] h g = tt
weaker m n (i ∷ is) h (l, g) = (omega arith, g)

-- Behind the first column.
shifted : ℕ → List ℕ → List Text → List Text
shifted n [] columns = []
shifted n (i ∷ is) columns = keep (get_elem? columns (i - n)) (shifted n is columns)

shifted-empty : (n : ℕ) (is : List ℕ) → shifted n is [] ≡ []
unfolding shifted
shifted-empty n [] = refl
shifted-empty n (i ∷ is) = shifted-empty n is

shifted_zero : (is : List ℕ) (columns : List Text) → shifted 0 is columns ≡ picked is columns
unfolding shifted picked
shifted_zero [] columns = refl
shifted_zero (i ∷ is) columns =
    let e : i - 0 ≡ i = omega arith in rw (e, shifted_zero is columns) refl

shifted-cons :
    (n : ℕ) (is : List ℕ) (c : Text) (cs : List Text)
    → Growing (n + 1) is
    → shifted n is (c ∷ cs) ≡ shifted (n + 1) is cs
unfolding shifted Growing
shifted-cons n [] c cs g = refl
shifted-cons n (i ∷ is) c cs (l, g) =
    let e : i - n ≡ suc (i - (n + 1)) = omega arith in
    rw (e, shifted-cons n is c cs (weaker (n + 1) (i + 1) is (omega arith) g)) refl

has_index-Growing : (m n : ℕ) (is : List ℕ) → m < n → Growing n is → has_index m is ≡ false
unfolding has_index Growing
has_index-Growing m n [] h g = refl
has_index-Growing m n (i ∷ is) h (l, g) =
    ground (arith, l, h, has_index-Growing m (i + 1) is (omega arith) g)

cells_from-empty : (n : ℕ) (cs : List Text) → cells_from n [] cs ≡ []
unfolding cells_from has_index
cells_from-empty n [] = refl
cells_from-empty n (c ∷ cs) = cells_from-empty (n + 1) cs

-- A index in front of the columns does not count.
cells_from-before :
    (n i : ℕ) (is : List ℕ) (cs : List Text) → i < n → cells_from n (i ∷ is) cs ≡ cells_from n is cs
unfolding cells_from has_index
cells_from-before n i is [] h = refl
cells_from-before n i is (c ∷ cs) h =
    let e : (i == n) ≡ false = ground arith in
    rw (e, cells_from-before (n + 1) i is cs (omega arith)) refl

cells_from-shifted :
    (n : ℕ) (is : List ℕ) (cs : List Text) → Growing n is → cells_from n is cs ≡ shifted n is cs
unfolding cells_from shifted Growing
cells_from-shifted n [] cs g = cells_from-empty n cs
cells_from-shifted n (i ∷ is) [] (l, g) = sym (shifted-empty n (i ∷ is))
cells_from-shifted n (i ∷ is) (c ∷ cs) (l, g) = elim (ℕ_discrete i n) [
  | yes e ↦
      let t : (i == n) ≡ true = ground arith in
      let z : i - n ≡ 0 = omega arith in
      rw (t, z, cells_from-before (n + 1) i is cs (omega arith))
        (ap (λ ds. c ∷ ds)
          (cells_from-shifted (n + 1) is cs (weaker (n + 1) (i + 1) is (omega arith) g)
            ∙ sym (shifted-cons n is c cs (weaker (n + 1) (i + 1) is (omega arith) g))))
  | no e ↦ rw (has_index-Growing n (n + 1) (i ∷ is) (omega arith) (omega arith, g)) (
      cells_from-shifted (n + 1) (i ∷ is) cs (omega arith, g)
      ∙ sym (shifted-cons n (i ∷ is) c cs (omega arith, g)))
]

get_elem?-index_of :
    (x : Text) (xs : List Text) (i : ℕ) → index_of x xs ≡ some i → get_elem? xs i ≡ some x
unfolding index_of
get_elem?-index_of x [] i h = cc
get_elem?-index_of x (y ∷ xs) i h = elim (Bool-cases (text_eq y x)) [
  | inl e ↦ let z : i ≡ 0 = ground (arith, h, e) in rw z (ap some (text_eq_sound y x e))
  | inr e ↦ elim (Option-cases (index_of x xs)) [
    | inl d ↦ absurd (ground (arith, h, e, d))
    | inr (j, d) ↦ let z : i ≡ suc j = ground (arith, h, e, d) in rw z (get_elem?-index_of x xs j d)
  ]
]

known_fields-picked :
    (fields headers : List Text)
    → known_fields fields headers ≡ picked (indices_of fields headers) headers
unfolding known_fields indices_of picked
known_fields-picked [] headers = refl
known_fields-picked (f ∷ fs) headers = elim (Option-cases (index_of f headers)) [
  | inl e ↦ rw e (known_fields-picked fs headers)
  | inr (i, e) ↦
      rw (e, get_elem?-index_of f headers i e) (ap (λ ds. f ∷ ds) (known_fields-picked fs headers))
]

-- Where the fields to show are in the order of the headers, the headers that are shown and the cells
-- of a row are those at the same indices, in the same order.
pub columns-picked :
    (f : Text) (fs headers columns : List Text)
    → let visible = indices_of (f ∷ fs) headers in
      Growing 0 visible
      → (calculated_header_columns (f ∷ fs) headers ≡ picked visible headers)
        × (calculated_columns (visible_indices (f ∷ fs) headers) columns ≡ picked visible columns)
unfolding calculated_header_columns calculated_columns visible_indices
columns-picked f fs headers columns g = (
  known_fields-picked (f ∷ fs) headers,
  cells_from-shifted 0 (indices_of (f ∷ fs) headers) columns g
      ∙ shifted_zero (indices_of (f ∷ fs) headers) columns,
)
