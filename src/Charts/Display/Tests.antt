-- ===== src/Charts/Display/Tests.antt =====
-- A display on a page with another one.
use fprime_gds.Charts.Display.Placed.{
  run as run_display, selects, changes_mode, AllBringNew, BringsNew, IsNew, run-placed, place,
  IsFree,
}
use fprime_gds.Charts.Display.{
  Page, ChartDisplay, mounted, on_time_mode_change, update_selected, register_chart, destroy,
  destroy_chart, cached_with, has_both, same_selection, cached_name,
}
use fprime_gds.Base.{refl, some, none, ◌≡◌, ◌∷◌, [], ℕ, List, ◌+◌, false, true}
use fprime_gds.Base.Text.{codes, text_eq}
use fprime_gds.Base.Decimal.{show_ℕ}
use fprime_gds.History.{Consumer}
use fprime_gds.History.Consumers.{NotIn}
use fprime_gds.Performance.Cached.{NotCached}
use fprime_gds.Siblings.{is_sibling}

abbrev other_consumer : Consumer ℕ
other_consumer = record { key = 1; send = λ items s. (s, none) }

abbrev display : ChartDisplay ℕ
display = record {
  id = 4;
  consumer = record { key = 2; send = λ items s. (s + 1, none) };
  chart = none;
  selected = none;
  old_selected = none;
}

abbrev page : Page ℕ
page = record {
  channels = record {
    consumers = other_consumer ∷ [];
    counter = 0;
    active = none;
    timeout = false;
  };
  siblings = record { in_sync = true; siblings = 8 ∷ [] };
  cached = (codes "Chart 3", 0) ∷ [];
}

-- Two selections and a change of the time mode leave the third chart on the page.
abbrev life : List fprime_gds.Charts.Display.Placed.Action
life = selects (some (codes "A.b")) 10 ∷ selects (some (codes "A.c")) 11 ∷ changes_mode 12 ∷ []

third_chart : (run_display life display page).0.chart ≡ some 12
unfolding run_display mounted on_time_mode_change update_selected register_chart destroy
    destroy_chart cached_with has_both same_selection text_eq
third_chart = refl

page-IsFree : IsFree display.consumer display.id page
unfolding NotIn NotCached cached_name text_eq show_ℕ
page-IsFree = record { consumer = (refl, tt); cached = (refl, tt) }

run-placed_example :
    (run_display life display page).1
    ≡ place
        (run_display life display page).0.chart
        (run_display life display page).0.consumer
        (run_display life display page).0.id
        page
unfolding AllBringNew BringsNew IsNew is_sibling
run-placed_example = run-placed life display page refl page-IsFree (refl, (refl, (refl, tt)))

-- A chart that cannot be made leaves the consumer and a null sibling, also behind a destruction.
thrown_stays :
    (let (d, p) = register_chart none display page in destroy d p).1.siblings.siblings ≡ 8 ∷ 0 ∷ []
unfolding register_chart destroy destroy_chart cached_with fprime_gds.Siblings.add is_sibling
thrown_stays = refl
