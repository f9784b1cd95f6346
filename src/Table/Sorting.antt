-- ===== src/Table/Sorting.antt =====
-- static/js/vue-support/fptable.js: the sorting of the items by a column.
pub mod Order
use fprime_gds.Table.{Table, Column, no_column, same_column, Binding, sort_key, Text, ℤ, Bool, List}
use fprime_gds.Base.Text.{Text}
use fprime_gds.Base.Int.{ℤ, pos, ltb_ℤ, ◌-ℤ◌}
use fprime_gds.Base.{Bool, List, ◌∷◌, if◌then◌else◌, map, []}

-- asc ? cmp : -cmp
pub ascending : (Text → Text → ℤ) → Bool → Text → Text → ℤ
ascending compare_keys asc j k = if asc then compare_keys j k else pos 0 -ℤ compare_keys j k

-- Array.prototype.sort is stable: an element goes in front of the first one behind it that it does
-- not compare above.
module _ {A : Type 0} (compare_keys : Text → Text → ℤ) where
  pub insert : Bool → Text × A → List (Text × A) → List (Text × A)
  unfolding ascending
  insert asc x [] = x ∷ []
  insert asc x (y ∷ ys) =
      let rest = insert asc x ys in
      if ltb_ℤ (pos 0) (ascending compare_keys asc x.0 y.0) then y ∷ rest else x ∷ y ∷ ys

  pub sorted : Bool → List (Text × A) → List (Text × A)
  unfolding insert
  sorted asc [] = []
  sorted asc (x ∷ xs) = insert asc x (sorted asc xs)

  -- sort; localeCompare is `compare_keys`.
  pub sort_items : Binding A → Table → List A → List A
  unfolding sorted sort_key same_column
  sort_items b t items =
      if same_column t.sort_column no_column
      then items
      else map (λ d. d.1)
          (sorted t.sort_ascending (map (λ x. (sort_key b t.sort_column x, x)) items))
