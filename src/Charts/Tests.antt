-- ===== src/Charts/Tests.antt =====
-- Pages of charts, and a display on a page with another one.
use fprime_gds.Base.{refl, some, none, ◌≡◌, ◌∷◌, [], arith}
use fprime_gds.Base.Text.{codes}
use fprime_gds.Base.Decimal.{is_white}
use fprime_gds.Base.Decimal.RoundTrip.{NoWhite}
use fprime_gds.Charts.{
  ChartWrapper, Wrapper, new_wrapper, add_chart, delete_chart, load_charts, saved_charts,
  selected_names, has_id, or_null_text,
}
use fprime_gds.Charts.Ids.{run, adds, deletes, loads, run-Below, Below}
use fprime_gds.Charts.Saved.{load_charts-saved_charts, AllNames, selections}

run-Below_example :
    Below
      (run (adds none ∷ deletes 0 ∷ deletes 7 ∷ loads (codes "a b") ∷ []) new_wrapper).counter
      (run (adds none ∷ deletes 0 ∷ deletes 7 ∷ loads (codes "a b") ∷ []) new_wrapper).wrappers
unfolding Below new_wrapper has_id
run-Below_example =
    run-Below (adds none ∷ deletes 0 ∷ deletes 7 ∷ loads (codes "a b") ∷ []) new_wrapper
      ((omega arith, refl), tt)

abbrev two_charts : ChartWrapper
two_charts = record {
  counter = 3;
  wrappers =
      record { id = 0; selected = some (codes "A.b") }
      ∷ record { id = 1; selected = none }
      ∷ record { id = 2; selected = some (codes "A.c") }
      ∷ [];
}

-- An id that is not there deletes the last chart.
deletes_last :
    (delete_chart 9 two_charts).wrappers
    ≡ record { id = 0; selected = some (codes "A.b") } ∷ record { id = 1; selected = none } ∷ []
unfolding delete_chart fprime_gds.Charts.has_id fprime_gds.Charts.without_last
deletes_last = refl

load_charts-saved_charts_example :
    selections (load_charts (saved_charts two_charts) new_wrapper).wrappers
    ≡ some (codes "A.b") ∷ some (codes "A.c") ∷ []
unfolding selected_names or_null_text AllNames NoWhite is_white
load_charts-saved_charts_example =
    load_charts-saved_charts two_charts (λ e. cc)
      ((refl, (refl, (refl, tt))), ((refl, (refl, (refl, tt))), tt))
