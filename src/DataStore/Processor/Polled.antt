-- ===== src/DataStore/Processor/Polled.antt =====
-- static/js/datastore.js: the counts and the drops behind the processing of polled events.
use fprime_gds.Base.{some, List, Option, map, ℕ}
use fprime_gds.Base.Decimal.{show_ℕ}
use fprime_gds.History.{Item}
use fprime_gds.DataStore.{text_eq, pos}
use fprime_gds.Base.Text.{text_eq, Text}
use fprime_gds.Base.Int.{pos}

-- The severities of the items, by the ids that they have.
abbrev pub ids : List Item → List (Option Text)
ids items = map (λ i. some (show_ℕ i.id)) items

abbrev pub zeros : List Text → List (Text × ℕ)
zeros fields = map (λ k. (k, 0)) fields
