-- ===== src/Charts/Display/Placed.antt =====
-- static/addons/chart-display/addon.js: what stands on the page for a display.
use fprime_gds.Charts.Display.{
  registered_if, Page, ChartDisplay, cached_name, identity, mounted, on_time_mode_change,
  update_selected, emit_delete_chart, destroy_chart, destroy, register_chart, cached_with, has_both,
  same_selection,
}
use fprime_gds.Base.{
  none, some, [], ◌∷◌, ◌≡◌, false, List, ℕ, Option, ap, inl, refl, ◌∙◌, inr, Bool-cases,
}
use fprime_gds.Base.Text.{Text}
use fprime_gds.History.{register, Consumer}
use fprime_gds.History.Consumers.{NotIn, deregister-register}
use fprime_gds.Siblings.{add, is_sibling}
use fprime_gds.Performance.{add_caching_object}
use fprime_gds.Performance.Cached.{NotCached, remove-add_caching_object}
use fprime_gds.Siblings.Added.{remove-add}

-- What is done with a display; the number is the chart that the chart library makes.
pub data Action : Type 0 where
  mounts : ℕ → Action
  changes_mode : ℕ → Action
  selects : Option Text → ℕ → Action
  deletes : Action

module _ {S : Type 0} where
  pub apply : Action → ChartDisplay S → Page S → ChartDisplay S × Page S
  apply (mounts k) d p = mounted (some k) d p
  apply (changes_mode k) d p = on_time_mode_change (some k) d p
  apply (selects new k) d p = update_selected new (some k) d p
  apply deletes d p = emit_delete_chart d p

  unfoldable pub run : List Action → ChartDisplay S → Page S → ChartDisplay S × Page S
  unfolding apply
  run [] d p = (d, p)
  run (a ∷ rest) d p = let (e, q) = apply a d p in run rest e q

  -- The page with what stands on it for a display: nothing without a chart, and else its consumer,
  -- its chart and its cached object, each once and behind all others.
  unfoldable pub place : Option ℕ → Consumer S → ℕ → Page S → Page S
  place none c id base = base
  place (some k) c id base = record {
    channels = register c base.channels;
    siblings = add (identity (some k)) base.siblings;
    cached = add_caching_object (cached_name id) 0 base.cached;
  }

  -- The chart is none of the siblings of the page.
  unfoldable pub IsNew : Page S → Option ℕ → Type 0
  IsNew base none = Unit
  IsNew base (some k) = is_sibling (identity (some k)) base.siblings.siblings ≡ false

  -- The page has neither the consumer nor the cached object of the display.
  pub record IsFree (c : Consumer S) (id : ℕ) (base : Page S) : Type 0 where
    pub consumer : NotIn c.key base.channels.consumers
    pub cached : NotCached (cached_name id) base.cached

  -- The page `p` is the page `base` with what stands on it for the display.
  pub record IsPlaced (base : Page S) (d : ChartDisplay S) (p : Page S) : Type 0 where
    pub free : IsFree d.consumer d.id base
    pub new_chart : IsNew base d.chart
    pub placed : p ≡ place d.chart d.consumer d.id base

  destroy_chart-place :
      (base : Page S) (o : Option ℕ) (d : ChartDisplay S)
      → IsFree d.consumer d.id base
      → IsNew base o
      → (destroy_chart o d (place o d.consumer d.id base)).1 ≡ base
  unfolding destroy_chart place IsNew
  destroy_chart-place base none d f n = refl
  destroy_chart-place base (some k) d f n =
      rw
        (
          deregister-register d.consumer base.channels f.consumer,
          remove-add (identity (some k)) base.siblings n,
          remove-add_caching_object (cached_name d.id) 0 base.cached f.cached,
        )
        refl

  destroy_chart-IsFree :
      (base : Page S) (o : Option ℕ) (d : ChartDisplay S) (p : Page S)
      → IsFree d.consumer d.id base
      → IsFree (destroy_chart o d p).0.consumer (destroy_chart o d p).0.id base
  unfolding destroy_chart
  destroy_chart-IsFree base none d p f = f
  destroy_chart-IsFree base (some k) d p f = f

  destroy-base :
      (base : Page S) (d : ChartDisplay S) (p : Page S) → IsPlaced base d p → (destroy d p).1 ≡ base
  unfolding destroy
  destroy-base base d p h =
      ap (λ q. (destroy_chart d.chart d q).1) h.placed
      ∙ destroy_chart-place base d.chart d h.free h.new_chart

  destroy_chart-no_chart :
      (o : Option ℕ) (d : ChartDisplay S) (p : Page S)
      → d.chart ≡ o
      → (destroy_chart o d p).0.chart ≡ none
  unfolding destroy_chart
  destroy_chart-no_chart none d p e = e
  destroy_chart-no_chart (some k) d p e = refl

  destroy-IsPlaced :
      (base : Page S) (d : ChartDisplay S) (p : Page S)
      → IsPlaced base d p
      → IsPlaced base (destroy d p).0 (destroy d p).1
  unfolding destroy place IsNew
  destroy-IsPlaced base d p h =
      let n = destroy_chart-no_chart d.chart d p refl in
      record {
        free = destroy_chart-IsFree base d.chart d p h.free;
        new_chart = rw n tt;
        placed = rw n (destroy-base base d p h);
      }

  register_chart-IsPlaced :
      (base : Page S) (k : ℕ) (d : ChartDisplay S) (p : Page S)
      → IsNew base (some k)
      → IsPlaced base d p
      → IsPlaced base (register_chart (some k) d p).0 (register_chart (some k) d p).1
  unfolding register_chart destroy cached_with place
  register_chart-IsPlaced base k d p n h = record {
    free = destroy_chart-IsFree base d.chart d p h.free;
    new_chart = n;
    placed =
        ap (λ q. place (some k) (destroy d p).0.consumer (destroy d p).0.id q)
          (destroy-base base d p h);
  }

  -- The charts that an action brings are none of the siblings of the page.
  unfoldable pub BringsNew : Page S → Action → Type 0
  unfolding IsNew
  BringsNew base (mounts k) = IsNew base (some k)
  BringsNew base (changes_mode k) = IsNew base (some k)
  BringsNew base (selects new k) = IsNew base (some k)
  BringsNew base deletes = Unit

  unfoldable pub AllBringNew : Page S → List Action → Type 0
  unfolding BringsNew
  AllBringNew base [] = Unit
  AllBringNew base (a ∷ rest) = BringsNew base a × AllBringNew base rest

  registered_if-IsPlaced :
      (base : Page S) (o : Option Text) (k : ℕ) (d : ChartDisplay S) (p : Page S)
      → IsNew base (some k)
      → IsPlaced base d p
      → IsPlaced base (registered_if o (some k) d p).0 (registered_if o (some k) d p).1
  unfolding registered_if
  registered_if-IsPlaced base none k d p n h = h
  registered_if-IsPlaced base (some t) k d p n h = register_chart-IsPlaced base k d p n h

  apply-IsPlaced :
      (base : Page S) (a : Action) (d : ChartDisplay S) (p : Page S)
      → BringsNew base a
      → IsPlaced base d p
      → IsPlaced base (apply a d p).0 (apply a d p).1
  unfolding apply mounted on_time_mode_change update_selected emit_delete_chart BringsNew
  apply-IsPlaced base (mounts k) d p n h = registered_if-IsPlaced base d.selected k d p n h
  apply-IsPlaced base (changes_mode k) d p n h = elim (Bool-cases (has_both d.chart d.selected)) [
    | inl e ↦ rw e (register_chart-IsPlaced base k d p n h)
    | inr e ↦ rw e h
  ]
  apply-IsPlaced base (selects new k) d p n h =
      elim (Bool-cases (same_selection new d.old_selected)) [
        | inl e ↦ rw e h
        | inr e ↦ rw e (
            register_chart-IsPlaced base k (record d { selected = new; old_selected = new }) p n
              (record { free = h.free; new_chart = h.new_chart; placed = h.placed }))
      ]
  apply-IsPlaced base deletes d p n h = destroy-IsPlaced base d p h

  run-IsPlaced :
      (base : Page S) (actions : List Action) (d : ChartDisplay S) (p : Page S)
      → AllBringNew base actions
      → IsPlaced base d p
      → IsPlaced base (run actions d p).0 (run actions d p).1
  unfolding run AllBringNew
  run-IsPlaced base [] d p n h = h
  run-IsPlaced base (a ∷ rest) d p (n, ns) h =
      run-IsPlaced base rest (apply a d p).0 (apply a d p).1 ns (apply-IsPlaced base a d p n h)

  -- Whatever is done with a display, and as long as the chart library makes its charts, the page is
  -- the one before with exactly one consumer, one sibling and one cached object of the display if it
  -- has a chart, and as it was before if it has none.
  pub run-placed :
      (actions : List Action) (d : ChartDisplay S) (base : Page S)
      → d.chart ≡ none
      → IsFree d.consumer d.id base
      → AllBringNew base actions
      → (run actions d base).1
        ≡ place
            (run actions d base).0.chart
            (run actions d base).0.consumer
            (run actions d base).0.id
            base
  unfolding place IsNew
  run-placed actions d base e f n =
      (run-IsPlaced base actions d base n
        (record { free = f; new_chart = rw e tt; placed = rw e refl })).placed
