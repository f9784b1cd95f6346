-- ===== src/Charts.antt =====
-- static/addons/chart-display/addon.js, component "chart-wrapper": the list of charts of the page.
mod Tests
pub mod Ids
pub mod Saved
pub mod Display
use fprime_gds.Base.{
  false, ◌||◌, true, none, some, [], ◌∷◌, ◌++◌, List, ℕ, suc, Option, Bool, if◌then◌else◌, ◌==◌,
  ◌+◌, map,
}
use fprime_gds.Base.Text.{Text, codes, join}
use fprime_gds.Base.Decimal.{trim}
use fprime_gds.Table.View.{split_white}

pub record Wrapper : Type 0 where
  pub id : ℕ
  pub selected : Option Text

pub record ChartWrapper : Type 0 where
  pub counter : ℕ
  pub wrappers : List Wrapper

-- The data of the component when it is created.
pub new_wrapper : ChartWrapper
new_wrapper = record { counter = 1; wrappers = record { id = 0; selected = none } ∷ [] }

-- selected || null
pub or_null_text : Option Text → Option Text
or_null_text none = none
or_null_text (some []) = none
or_null_text (some (c ∷ cs)) = some (c ∷ cs)

pub add_chart : Option Text → ChartWrapper → ChartWrapper
unfolding or_null_text
add_chart selected w = record {
  counter = w.counter + 1;
  wrappers = w.wrappers ++ record { id = w.counter; selected = or_null_text selected } ∷ [];
}

-- findIndex(f => f.id === id) !== -1
pub has_id : ℕ → List Wrapper → Bool
has_id k [] = false
has_id k (x ∷ xs) = (x.id == k) || has_id k xs

-- splice(-1, 1)
pub without_last : List Wrapper → List Wrapper
without_last [] = []
without_last (x ∷ []) = []
without_last (x ∷ y ∷ xs) = x ∷ without_last (y ∷ xs)

pub without_id : ℕ → List Wrapper → List Wrapper
without_id k [] = []
without_id k (x ∷ xs) = let rest = without_id k xs in if x.id == k then xs else x ∷ rest

-- An id that no chart has gives the index -1, which removes the last chart.
pub delete_chart : ℕ → ChartWrapper → ChartWrapper
unfolding has_id without_id without_last
delete_chart k w = record w {
  wrappers = if has_id k w.wrappers then without_id k w.wrappers else without_last w.wrappers;
}

pub with_selected : ℕ → Option Text → List Wrapper → List Wrapper
with_selected k s [] = []
with_selected k s (x ∷ xs) =
    let rest = with_selected k s xs in
    if x.id == k then record x { selected = s } ∷ xs else x ∷ rest

-- selected; `none` is the TypeError of an id that no chart has.
pub select_chart : ℕ → Option Text → ChartWrapper → Option ChartWrapper
unfolding has_id with_selected
select_chart k s w =
    if has_id k w.wrappers
    then some (record w { wrappers = with_selected k s w.wrappers })
    else none

-- wrappers[wrappers.length - 1].selected == null, where there are any
last_is_blank : List Wrapper → Bool
last_is_blank [] = false
last_is_blank (x ∷ []) = elim x.selected [ none ↦ true | some t ↦ false ]
last_is_blank (x ∷ y ∷ xs) = last_is_blank (y ∷ xs)

pub add_charts : List Text → ChartWrapper → ChartWrapper
unfolding add_chart trim
add_charts [] w = w
add_charts (t ∷ ts) w = add_charts ts (add_chart (some (trim t)) w)

-- loadCharts, with the text of the file; a split has one part at least.
pub load_charts : Text → ChartWrapper → ChartWrapper
unfolding add_charts last_is_blank without_last
load_charts text w =
    let kept = if last_is_blank w.wrappers then without_last w.wrappers else w.wrappers in
    add_charts (split_white text) (record w { wrappers = kept })

-- The selections that are neither null nor "".
pub selected_names : List Wrapper → List Text
unfolding or_null_text
selected_names [] = []
selected_names (x ∷ xs) = elim (or_null_text x.selected) [
  | none ↦ selected_names xs
  | some t ↦ t ∷ selected_names xs
]

-- saveChartsHref: the text of the file.
pub saved_charts : ChartWrapper → Text
unfolding selected_names join
saved_charts w = join (codes "\n") (selected_names w.wrappers)
