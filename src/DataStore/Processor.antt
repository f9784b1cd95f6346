-- ===== src/DataStore/Processor.antt =====
-- static/js/datastore.js: the processor that reregisterPoller gives to the poller of a history.
pub mod Polled
mod Tests
use fprime_gds.Base.Decimal.{show_ℕ}
use fprime_gds.History.{update, HistoryHelper, Item}
use fprime_gds.DataStore.{severity_of}
use fprime_gds.Monitor.{LoadValidator, Response, handle_response, update_errors, count_items}
use fprime_gds.Base.{none, some, ◌∷◌, [], List, Option, if◌then◌else◌, ℕ, map}
use fprime_gds.Base.Text.{Text, codes, text_eq}

-- The poller hands over the items alone: they have no history, no validation and no errors.
abbrev pub bare_items : Response Item
bare_items = record { history = none; validation = none; errors = none }

report_errors : List Text → LoadValidator → LoadValidator
report_errors [] v = v
report_errors (e ∷ es) v = report_errors es (update_errors (e ∷ []) v)

-- The handler of wrapFieldCounter, for events, up to the call of `follow_on`.
counted_items : List (Text × Text) → List Text → Text → List Item → LoadValidator → LoadValidator
counted_items events fields endpoint items v =
    if text_eq endpoint (codes "events")
    then record v {
      counts =
          count_items (severity_of events) (map (λ k. (k, 0)) fields)
            (map (λ i. some (show_ℕ i.id)) items) v.counts;
    }
    else v

-- processor(items): counting, the load validation, and the update of the history, whose consumers
-- report what they throw. `events` are the severities of the dictionary, `setting` is the interval
-- of the endpoint, `now` is the time and `last` is what the last load took.
pub process :
    {S : Type 0}
    → List (Text × Text)
    → List Text
    → Text
    → Option ℕ
    → ℕ
    → Option ℕ
    → List Item
    → LoadValidator
    → HistoryHelper S
    → S
    → LoadValidator × HistoryHelper S × S
unfolding counted_items report_errors
process events fields endpoint setting now last items v h s =
    let before =
      handle_response endpoint setting now last bare_items
        (counted_items events fields endpoint items v) in
    let (h', s', errors) = update items h s in (report_errors errors before, h', s')
