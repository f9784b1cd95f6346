-- ===== src/Charts/Display.antt =====
-- static/addons/chart-display/addon.js, component "chart-display": the life of one chart and what is
-- registered for it, and the points that it is given.
mod Tests
pub mod Placed
pub mod Points
use fprime_gds.Base.{
  true, false, none, some, [], ◌∷◌, ◌++◌, List, ℕ, suc, Option, Bool, if◌then◌else◌,
}
use fprime_gds.Base.Text.{Text, codes, text_eq}
use fprime_gds.Base.Decimal.{show_ℕ}
use fprime_gds.History.{HistoryHelper, Consumer, register, deregister}
use fprime_gds.Siblings.{SiblingSet, add, remove}
use fprime_gds.Performance.{add_caching_object, remove_caching_object}

-- What the displays share: the history of the channels with its consumers, the set of siblings, and
-- the cached objects of the performance object.
pub record Page (S : Type 0) : Type 0 where
  pub channels : HistoryHelper S
  pub siblings : SiblingSet
  pub cached : List (Text × ℕ)

-- `consumer` is the display as a consumer of channels; a chart is its identity.
pub record ChartDisplay (S : Type 0) : Type 0 where
  pub id : ℕ
  pub consumer : Consumer S
  pub chart : Option ℕ
  pub selected : Option Text
  pub old_selected : Option Text

-- "Chart " + this.id
pub cached_name : ℕ → Text
unfolding show_ℕ
cached_name id = codes "Chart " ++ show_ℕ id

-- An object of the set of siblings: 0 is `null`.
abbrev pub identity : Option ℕ → ℕ
identity none = 0
identity (some k) = suc k

-- The cached object of a chart that could be made; its data are empty.
cached_with : Option ℕ → ℕ → List (Text × ℕ) → List (Text × ℕ)
unfolding cached_name
cached_with none id cached = cached
cached_with (some k) id cached = add_caching_object (cached_name id) 0 cached

-- this.chart && this.selected
has_both : Option ℕ → Option Text → Bool
has_both none s = false
has_both (some k) none = false
has_both (some k) (some []) = false
has_both (some k) (some (c ∷ cs)) = true

same_selection : Option Text → Option Text → Bool
unfolding text_eq
same_selection none none = true
same_selection none (some t) = false
same_selection (some s) none = false
same_selection (some s) (some t) = text_eq s t

module _ {S : Type 0} where
  destroy_chart : Option ℕ → ChartDisplay S → Page S → ChartDisplay S × Page S
  unfolding cached_name
  destroy_chart none d p = (d, p)
  destroy_chart (some k) d p = (
    record d { chart = none },
    record {
      channels = deregister d.consumer p.channels;
      siblings = remove (identity (some k)) p.siblings;
      cached = remove_caching_object (cached_name d.id) p.cached;
    },
  )

  pub destroy : ChartDisplay S → Page S → ChartDisplay S × Page S
  unfolding destroy_chart
  destroy d p = destroy_chart d.chart d p

  -- registerChart; `made` is the new chart, `none` where the chart library throws.
  pub register_chart : Option ℕ → ChartDisplay S → Page S → ChartDisplay S × Page S
  unfolding destroy cached_with
  register_chart made d p =
      let (e, q) = destroy d p in
      (
        record e { chart = made },
        record {
          channels = register e.consumer q.channels;
          siblings = add (identity made) q.siblings;
          cached = cached_with made e.id q.cached;
        },
      )

  -- mounted, and `$nextTick` behind updateSelected, where there is a selection.
  registered_if : Option Text → Option ℕ → ChartDisplay S → Page S → ChartDisplay S × Page S
  unfolding register_chart
  registered_if none made d p = (d, p)
  registered_if (some t) made d p = register_chart made d p

  pub mounted : Option ℕ → ChartDisplay S → Page S → ChartDisplay S × Page S
  unfolding registered_if
  mounted made d p = registered_if d.selected made d p

  pub on_time_mode_change : Option ℕ → ChartDisplay S → Page S → ChartDisplay S × Page S
  unfolding register_chart has_both
  on_time_mode_change made d p =
      if has_both d.chart d.selected then register_chart made d p else (d, p)

  -- updateSelected, with what runs on the next tick; the parent has the new selection by then.
  pub update_selected : Option Text → Option ℕ → ChartDisplay S → Page S → ChartDisplay S × Page S
  unfolding register_chart same_selection
  update_selected new made d p =
      if same_selection new d.old_selected
      then (d, p)
      else register_chart made (record d { selected = new; old_selected = new }) p

  -- emitDeleteChart, up to the event that it emits.
  pub emit_delete_chart : ChartDisplay S → Page S → ChartDisplay S × Page S
  unfolding destroy
  emit_delete_chart d p = destroy d p
