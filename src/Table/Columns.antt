-- ===== src/Table/Columns.antt =====
-- static/js/vue-support/fptable.js and fp-row.js: the columns that are shown, and the clicks on them.
pub mod Cells
pub mod Clicks
use fprime_gds.Table.{
  Table, Column, no_column, undefined_column, column, same_column, text_eq, List, ℕ, Option,
}
use fprime_gds.Base.Text.{text_eq, Text}
use fprime_gds.Base.{
  List, ℕ, Option, Bool, some, none, ◌∷◌, false, get_elem?, if◌then◌else◌, suc, not, [], ◌==◌, ◌+◌,
  true, ◌||◌,
}

-- xs.indexOf(x), `none` for -1
unfoldable pub index_of : Text → List Text → Option ℕ
unfolding text_eq
index_of x [] = none
index_of x (y ∷ ys) =
    if text_eq y x then some 0 else elim (index_of x ys) [ none ↦ none | some i ↦ some (suc i) ]

-- An element that may be missing in front of a list.
abbrev pub keep {ℓ} : {A : Type ℓ} → Option A → List A → List A
keep none xs = xs
keep (some x) xs = x ∷ xs

-- visibleIndices, `none` for null.
unfoldable pub indices_of : List Text → List Text → List ℕ
unfolding index_of
indices_of [] headers = []
indices_of (f ∷ fs) headers = keep (index_of f headers) (indices_of fs headers)

unfoldable pub visible_indices : List Text → List Text → Option (List ℕ)
unfolding indices_of
visible_indices [] headers = none
visible_indices (f ∷ fs) headers = some (indices_of (f ∷ fs) headers)

abbrev keep_known : Option ℕ → Text → List Text → List Text
keep_known none f fs = fs
keep_known (some i) f fs = f ∷ fs

unfoldable pub known_fields : List Text → List Text → List Text
unfolding index_of
known_fields [] headers = []
known_fields (f ∷ fs) headers = keep_known (index_of f headers) f (known_fields fs headers)

unfoldable pub calculated_header_columns : List Text → List Text → List Text
unfolding known_fields
calculated_header_columns [] headers = headers
calculated_header_columns (f ∷ fs) headers = known_fields (f ∷ fs) headers

-- calculatedColumns of fp-row: the columns whose index is visible, in the order of the columns.
unfoldable pub has_index : ℕ → List ℕ → Bool
has_index i [] = false
has_index i (j ∷ js) = (j == i) || has_index i js

unfoldable pub cells_from : ℕ → List ℕ → List Text → List Text
unfolding has_index
cells_from i visible [] = []
cells_from i visible (c ∷ cs) =
    let rest = cells_from (i + 1) visible cs in if has_index i visible then c ∷ rest else rest

unfoldable pub calculated_columns : Option (List ℕ) → List Text → List Text
unfolding cells_from
calculated_columns none columns = columns
calculated_columns (some visible) columns = cells_from 0 visible columns

-- this.visibleIndices ? this.visibleIndices[displayIndex] : displayIndex
pub actual_index : Option (List ℕ) → ℕ → Column
actual_index none i = column i
actual_index (some visible) i = elim (get_elem? visible i) [
  | none ↦ undefined_column
  | some j ↦ column j
]

-- columnClicked, up to the call of send.
unfoldable pub column_clicked : List Text → ℕ → Table → Table
unfolding actual_index visible_indices same_column
column_clicked headers i t =
    let actual = actual_index (visible_indices t.fields headers) i in
    if same_column t.sort_column actual
    then if not t.sort_ascending
      then record t { sort_column = no_column; sort_ascending = true }
      else record t { sort_ascending = false }
    else record t { sort_column = actual; sort_ascending = true }

unfoldable pub is_sorted_column : List Text → ℕ → Table → Bool
unfolding actual_index visible_indices same_column
is_sorted_column headers i t =
    same_column t.sort_column (actual_index (visible_indices t.fields headers) i)
