-- ===== src/Table/Columns/Clicks.antt =====
-- static/js/vue-support/fptable.js: the sorting that clicks on a column choose.
use fprime_gds.Table.{Table, Column, no_column, undefined_column, column, same_column, List, Text}
use fprime_gds.Table.Columns.{actual_index, visible_indices, column_clicked, is_sorted_column}
use fprime_gds.Base.{◌≡◌, List, true, ℕ, arith, false, refl}
use fprime_gds.Base.Text.{Text}

same_column_self : (c : Column) → same_column c c ≡ true
unfolding same_column
same_column_self no_column = refl
same_column_self undefined_column = refl
same_column_self (column i) = ground arith

-- The first click on a column that is not sorted sorts it upwards, the second one downwards, and the
-- third one ends the sorting; the columns that are shown stay.
pub column_clicked-cycle :
    (headers : List Text) (i : ℕ) (t : Table)
    → is_sorted_column headers i t ≡ false
    → let once = column_clicked headers i t in
      let twice = column_clicked headers i once in
      (is_sorted_column headers i once ≡ true)
      × (once.sort_ascending ≡ true)
      × (is_sorted_column headers i twice ≡ true)
      × (twice.sort_ascending ≡ false)
      × (column_clicked headers i twice
          ≡ record t { sort_column = no_column; sort_ascending = true })
unfolding column_clicked is_sorted_column
column_clicked-cycle headers i t h =
    let s = same_column_self (actual_index (visible_indices t.fields headers) i) in
    ground (arith, h, s)
