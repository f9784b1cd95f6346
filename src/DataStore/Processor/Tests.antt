-- ===== src/DataStore/Processor/Tests.antt =====
-- Two events and a consumer that throws.
use fprime_gds.Base.{some, ◌∷◌, [], none, ℕ, List, ◌+◌, false}
use fprime_gds.Base.Text.{codes, Text}
use fprime_gds.History.{HistoryHelper, Item, Consumer, no_date}

abbrev event : ℕ → Item
event k = record { id = k; time = none; datetime = no_date; incremental_id = none; text = [] }

abbrev severities : List (Text × Text)
severities =
    (codes "7", codes "EventSeverity.FATAL") ∷ (codes "8", codes "EventSeverity.COMMAND") ∷ []

abbrev thrower : Consumer ℕ
thrower = record { key = 0; send = λ items s. (s + 1, some (codes "failed")) }

abbrev helper : HistoryHelper ℕ
helper = record { consumers = thrower ∷ []; counter = 0; active = none; timeout = false }
