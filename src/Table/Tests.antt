-- ===== src/Table/Tests.antt =====
-- A table of three rows with two columns.
use fprime_gds.Base.{refl, List, [], false, Bool, ◌∷◌, true, ◌≡◌, arith, if◌then◌else◌, some, none}
use fprime_gds.Validate.{contains}
use fprime_gds.Table.{
  Table, Binding, Column, no_column, column, searched, is_visible, Text, ◌-ℤ◌, text_eq,
}
use fprime_gds.Table.Columns.{
  column_clicked, is_sorted_column, calculated_header_columns, calculated_columns, visible_indices,
  indices_of, index_of, known_fields, cells_from, has_index,
}
use fprime_gds.Table.Columns.Clicks.{column_clicked-cycle}
use fprime_gds.Table.Columns.Cells.{columns-picked, picked, Growing}
use fprime_gds.Table.Sorting.{sort_items}
use fprime_gds.Table.Sorting.Order.{sort_items-InOrder, IsOpposed, InOrder, count_if}
use fprime_gds.Table.View.{check_all}
use fprime_gds.Table.View.Checked.{check_all-contains, is_named, Distinct}
use fprime_gds.Base.Text.{Text, text_eq, codes}
use fprime_gds.Base.Int.{◌-ℤ◌, ℤ, ltb_ℤ, pos, negsuc}

abbrev headers : List Text
headers = codes "Time" ∷ codes "Name" ∷ codes "Value" ∷ []

abbrev table : Table
table = record {
  matching = [];
  editing = false;
  view = codes "b" ∷ [];
  fields = [];
  sort_column = no_column;
  sort_ascending = true;
  indeterminate = false;
}

cycle_of_clicks :
    column_clicked headers 1 (column_clicked headers 1 (column_clicked headers 1 table)) ≡ table
unfolding is_sorted_column
cycle_of_clicks = (column_clicked-cycle headers 1 table refl).4

abbrev row : List Text
row = codes "12" ∷ codes "volts" ∷ codes "5" ∷ []

picked_columns :
    (calculated_header_columns (codes "Time" ∷ codes "Value" ∷ []) headers
      ≡ codes "Time" ∷ codes "Value" ∷ [])
    × (calculated_columns (visible_indices (codes "Time" ∷ codes "Value" ∷ []) headers) row
        ≡ codes "12" ∷ codes "5" ∷ [])
unfolding indices_of index_of text_eq picked Growing
picked_columns = columns-picked (codes "Time") (codes "Value" ∷ []) headers row (omega arith)

-- In another order the headers change places, and the cells do not.
swapped :
    (calculated_header_columns (codes "Value" ∷ codes "Time" ∷ []) headers
      ≡ codes "Value" ∷ codes "Time" ∷ [])
    × (calculated_columns (visible_indices (codes "Value" ∷ codes "Time" ∷ []) headers) row
        ≡ codes "12" ∷ codes "5" ∷ [])
unfolding calculated_header_columns calculated_columns visible_indices indices_of known_fields
    cells_from has_index index_of text_eq
swapped = (refl, refl)

abbrev names : Binding Text
names = record {
  header_columns = headers;
  item_to_columns = λ x. x ∷ [];
  item_to_view_name = λ x. x;
  item_hide = λ x. false;
  reverse_order = false;
  support_views = true;
}

-- The order by the first unit alone.
abbrev by_head : Text → Text → ℤ
by_head [] [] = pos 0
by_head [] (d ∷ ds) = negsuc 0
by_head (c ∷ cs) [] = pos 1
by_head (c ∷ cs) (d ∷ ds) = pos c -ℤ pos d

by_head-IsOpposed : IsOpposed by_head
unfolding ◌-ℤ◌
by_head-IsOpposed = record { above = above; below = below }
  where
    above : (j k : Text) → ltb_ℤ (pos 0) (by_head j k) ≡ true → ltb_ℤ (pos 0) (by_head k j) ≡ false
    above [] [] h = refl
    above [] (d ∷ ds) h = cc
    above (c ∷ cs) [] h = refl
    above (c ∷ cs) (d ∷ ds) h = ground arith

    below : (j k : Text) → ltb_ℤ (by_head j k) (pos 0) ≡ true → ltb_ℤ (by_head k j) (pos 0) ≡ false
    below [] [] h = refl
    below [] (d ∷ ds) h = refl
    below (c ∷ cs) [] h = cc
    below (c ∷ cs) (d ∷ ds) h = ground arith

abbrev by_first : Table
by_first = record table { sort_column = column 0; sort_ascending = false }

abbrev items : List Text
items = codes "b" ∷ codes "c" ∷ codes "a" ∷ []

sort_items-InOrder_example :
    InOrder by_head
      (fprime_gds.Table.sort_key names (column 0))
      false
      (sort_items by_head names by_first items)
    × ((p : Text → Bool) → count_if p (sort_items by_head names by_first items) ≡ count_if p items)
unfolding fprime_gds.Table.same_column
sort_items-InOrder_example = sort_items-InOrder by_head names by_first items by_head-IsOpposed refl

check_all-contains_example :
    ((u : Table) × (check_all names (λ t. t) (some items) false table ≡ some u)
      × (contains (codes "b") u.view ≡ (
          if is_named names (codes "b") (searched names (λ t. t) table items)
          then false
          else true)))
    × (check_all names (λ t. t) none false table ≡ none)
unfolding Distinct contains text_eq
check_all-contains_example =
    check_all-contains names (λ t. t) items false table (codes "b") (refl, tt)
