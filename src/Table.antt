-- ===== src/Table.antt =====
-- static/js/vue-support/fptable.js and fp-row.js: the table of items, with its filter, views, sorting
-- and columns, over the scroll handler.
mod Tests
pub mod Columns
pub mod View
pub mod Sorting
use fprime_gds.Search.{filter, Matching, several}
use fprime_gds.Validate.{contains}
use mathlib.Core.List.{reverse}
use fprime_gds.Base.{
  ℕ, Bool, List, Option, [], false, true, ◌==◌, if◌then◌else◌, ◌∷◌, map, get_elem?, none, some, not,
  length, ◌&&◌, suc, ◌||◌, ◌+◌, ◌++◌,
}
use fprime_gds.Scroll.{ScrollHandler, Element, slice, update_data, next}
use fprime_gds.Base.Text.{Text, text_eq, join, codes, includes}
use fprime_gds.Base.Decimal.{is_white}
use fprime_gds.Base.Int.{ℤ, pos, ltb_ℤ, ◌-ℤ◌}

-- `sortColumn`: null, an index, or the undefined behind the end of the visible columns.
pub data Column : Type 0 where
  no_column undefined_column : Column
  column : ℕ → Column

-- this.sortColumn === actualIndex
unfoldable pub same_column : Column → Column → Bool
same_column no_column no_column = true
same_column undefined_column undefined_column = true
same_column (column i) (column j) = i == j
same_column (column i) no_column = false
same_column (column i) undefined_column = false
same_column no_column (column j) = false
same_column no_column undefined_column = false
same_column undefined_column (column j) = false
same_column undefined_column no_column = false

-- The data of the component; `fields` is empty when all columns are shown, and `indeterminate` is
-- that of the box that checks all.
pub record Table : Type 0 where
  pub matching : Text
  pub editing : Bool
  pub view : List Text
  pub fields : List Text
  pub sort_column : Column
  pub sort_ascending : Bool
  pub indeterminate : Bool

-- What the user of the component binds, `A` the type of an item.
pub record Binding (A : Type 0) : Type 0 where
  pub header_columns : List Text
  pub item_to_columns : A → List Text
  pub item_to_view_name : A → Text
  pub item_hide : A → Bool
  pub reverse_order : Bool
  pub support_views : Bool

-- t.split(" ")
pub split_spaces : Text → List Text
split_spaces [] = [] ∷ []
split_spaces (c ∷ cs) =
    let rest = split_spaces cs in
    if c == b' ' then [] ∷ rest else elim rest [ [] ↦ (c ∷ []) ∷ [] | w ∷ ws ↦ (c ∷ w) ∷ ws ]

module _ {A : Type 0} (b : Binding A) where
  -- The tests of the pre-filter step, in their order.
  pub is_visible : Table → A → Bool
  unfolding contains
  is_visible t x =
      if t.editing
      then true
      else if length t.view == 0 && not (b.item_hide x)
      then true
      else if not b.support_views && not (b.item_hide x)
      then true
      else contains (b.item_to_view_name x) t.view

  pub visible_items : Table → List A → List A
  unfolding is_visible
  visible_items t [] = []
  visible_items t (x ∷ xs) =
      let rest = visible_items t xs in if is_visible t x then x ∷ rest else rest

  -- itemToColumns(item).join(" ")
  pub item_text : A → Text
  item_text x = join (codes " ") (b.item_to_columns x)

  pub searched : (Text → Text) → Table → List A → List A
  unfolding split_spaces item_text
  searched lower t items =
      filter lower items (several (map some (split_spaces t.matching))) item_text

  pub filter_items : (Text → Text) → Table → List A → List A
  unfolding searched visible_items same_column
  filter_items lower t items =
      let filtered = searched lower t (visible_items t items) in
      if b.reverse_order && same_column t.sort_column no_column then reverse filtered else filtered

  -- String(itemToColumns(item)[col])
  pub sort_key : Column → A → Text
  sort_key (column i) x = elim (get_elem? (b.item_to_columns x) i) [
    | none ↦ codes "undefined"
    | some k ↦ k
  ]
  sort_key _ x = codes "undefined"
