-- ===== src/Table/View.antt =====
-- static/js/vue-support/fptable.js: the views of a table, and what it shows of a store.
pub mod Checked
use fprime_gds.Base.{
  ◌>>=◌, some, Bool, List, [], false, true, ◌∷◌, not, Option, if◌then◌else◌, ◌&&◌, ◌||◌, ◌++◌,
}
use fprime_gds.Validate.{contains}
use fprime_gds.Table.{
  Table, Binding, searched, filter_items, text_eq, Text, Bool, List, ℤ, [], false, true, is_white,
}
use fprime_gds.Table.Sorting.{sort_items}
use fprime_gds.Scroll.{ScrollHandler, Element, slice, update_data}
use fprime_gds.Base.Text.{text_eq, Text, includes, codes}
use fprime_gds.Base.Int.{ℤ, ◌+ℤ◌, pos}
use fprime_gds.Base.Decimal.{is_white}

-- view.splice(view.indexOf(name), 1)
pub without_name : Text → List Text → List Text
unfolding text_eq
without_name n [] = []
without_name n (v ∷ vs) = let rest = without_name n vs in if text_eq v n then vs else v ∷ rest

-- The change of the view in checkedChild.
pub checked_view : Text → Bool → List Text → List Text
unfolding contains without_name
checked_view n value view =
    if value && not (contains n view)
    then view ++ n ∷ []
    else if not value && contains n view
    then without_name n view
    else view

module _ {A : Type 0} (b : Binding A) where
  pub checked_child : A → Bool → Table → Table
  unfolding checked_view
  checked_child x value t = record t {
    view = checked_view (b.item_to_view_name x) value t.view;
    indeterminate = true;
  }

  pub check_each : List A → Bool → Table → Table
  unfolding checked_child
  check_each [] value t = t
  check_each (x ∷ xs) value t = check_each xs value (checked_child x value t)

  -- checkAll on this.items; it is null for a table with an itemsKey, which is a TypeError, `none`.
  pub check_all : (Text → Text) → Option (List A) → Bool → Table → Option Table
  unfolding check_each searched
  check_all lower items value t = do
    xs ← items
    some (record (check_each (searched b lower t xs) value t) { indeterminate = false })

  pub in_view : Table → A → Bool
  unfolding contains
  in_view t x = not b.support_views || contains (b.item_to_view_name x) t.view

  -- scroll: the handler with the items, and the page that is shown.
  pub scroll_items :
      (Element → ℤ → Element)
      → (A → A → Bool)
      → List A
      → ScrollHandler A
      → Option (ScrollHandler A × List A)
  scroll_items set_scroll_top same items h = do
    g ← update_data set_scroll_top same items h
    some (g, slice items g.offset (g.offset +ℤ pos g.count))

  -- send, for a table over a store: the items are filtered, sorted and scrolled.
  pub send_items :
      (Text → Text)
      → (Text → Text → ℤ)
      → (Element → ℤ → Element)
      → (A → A → Bool)
      → List A
      → Table
      → ScrollHandler A
      → Option (ScrollHandler A × List A)
  unfolding scroll_items
  send_items lower compare_keys set_scroll_top same items t h =
      scroll_items set_scroll_top same (sort_items compare_keys b t (filter_items b lower t items))
        h

pub clear_view : Table → Table
clear_view t = record t { view = [] }

pub save_view : Table → Table
save_view t = record t { editing = false; matching = [] }

pub edit_views : Table → Table
edit_views t = record t { editing = true; matching = [] }

-- data.split(/\s/), where each part is free of white space then.
unfoldable pub split_white : Text → List Text
unfolding is_white
split_white [] = [] ∷ []
split_white (c ∷ cs) =
    let rest = split_white cs in
    if is_white c then [] ∷ rest else elim rest [ [] ↦ (c ∷ []) ∷ [] | w ∷ ws ↦ (c ∷ w) ∷ ws ]

pub read_file : Text → Table → Table
unfolding split_white
read_file text t = record t { view = split_white text }

-- basename of a file row: what stands behind the last / or \.
unfoldable pub basename : Text → Text
basename [] = []
basename (c ∷ cs) =
    let rest = basename cs in
    if includes (codes "/") (c ∷ cs) || includes (codes "\\") (c ∷ cs) then rest else c ∷ cs
