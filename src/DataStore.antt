-- ===== src/DataStore.antt =====
-- static/js/datastore.js: the DataStore object.
pub mod Setup
pub mod Processor
use fprime_gds.Monitor.{init_counts}
use fprime_gds.Loader.{register_poller, Context, Timers}
use fprime_gds.History.{register, deregister, Consumer, HistoryHelper, Item, ItemMap, no_date, put}
use fprime_gds.Base.{◌>>=◌, none, some, ℕ, List, Option, ◌∷◌, if◌then◌else◌, [], drop, length, map}
use fprime_gds.Validate.{contains}
use fprime_gds.Base.Int.{pos, negsuc, ℤ}
use fprime_gds.Base.Text.{text_eq, is_prefix, Text, codes}
use fprime_gds.Base.Store.{find_key}

-- The blank channel of each key of the dictionary, and Object.assign of them to the store.
blank_channel : ℕ → Item
blank_channel k = record {
  id = k;
  time = none;
  datetime = no_date;
  incremental_id = none;
  text = [];
}

pub blank_channels : List ℕ → ItemMap → ItemMap
unfolding blank_channel
blank_channels [] store = store
blank_channels (k ∷ ks) store = blank_channels ks (put k (blank_channel k) store)

-- polling_info: the history of an endpoint, `none` for the function of "stats".
abbrev pub PollingInfo : Type 0 → Type 0
PollingInfo S = List (Text × Option (HistoryHelper S))

module _ {S : Type 0} where
  -- The first item of the endpoint is changed; `none` is the TypeError where there is no such
  -- item, or no history in it.
  change_history :
      (HistoryHelper S → HistoryHelper S) → Text → PollingInfo S → Option (PollingInfo S)
  unfolding text_eq
  change_history f key [] = none
  change_history f key ((e, h) ∷ info) =
      let rest = change_history f key info in
      if text_eq e key
      then (do helper ← h; some ((e, some (f helper)) ∷ info))
      else (do changed ← rest; some ((e, h) ∷ changed))

  pub register_consumer : Text → Consumer S → PollingInfo S → Option (PollingInfo S)
  unfolding change_history
  register_consumer key c info = change_history (register c) key info

  pub deregister_consumer : Text → Consumer S → PollingInfo S → Option (PollingInfo S)
  unfolding change_history
  deregister_consumer key c info = change_history (deregister c) key info

-- text.replace(p, ""): the first place where `p` stands is taken out.
remove_first : Text → Text → Text
unfolding is_prefix
remove_first p [] = []
remove_first p (c ∷ cs) =
    let rest = remove_first p cs in
    if is_prefix p (c ∷ cs) then drop (length p) (c ∷ cs) else c ∷ rest

severity_text : Option Text → Option Text
unfolding remove_first
severity_text none = none
severity_text (some []) = none
severity_text (some (c ∷ cs)) = some (remove_first (codes "EventSeverity.") (c ∷ cs))

-- severity_processor; the dictionary has the value of the severity of each event by its id.
pub severity_of : List (Text × Text) → Text → Option Text
unfolding severity_text find_key
severity_of events id = severity_text (find_key id events)

-- The interval where it is above -1.
polled_every : Option ℤ → Option ℕ
polled_every none = none
polled_every (some (negsuc n)) = none
polled_every (some (pos n)) = some n

-- What the registration of a poller changes: the counts of the load validation, and the timer of
-- the endpoint.
pub record PollerState : Type 0 where
  pub counts : List (Text × ℕ)
  pub context : Context
  pub timers : Timers

-- Events are counted by their severity, from 0 on.
counted : List Text → Text → List (Text × ℕ) → List (Text × ℕ)
unfolding text_eq
counted fields endpoint counts =
    if text_eq endpoint (codes "events")
    then init_counts (map (λ k. (k, 0)) fields) counts
    else counts

registered : List Text → Option ℕ → Text → Option ℕ → PollerState → PollerState
unfolding counted
registered fields default endpoint none p = p
registered fields default endpoint (some n) p =
    let (context, timers) = register_poller (some n) default p.context p.timers in
    record { counts = counted fields endpoint p.counts; context = context; timers = timers }

-- reregisterPoller; `fields` are the keys of config.summaryFields, `setting` is the interval.
pub reregister_poller :
    List Text → List Text → Option ℕ → Text → Option ℤ → PollerState → PollerState
unfolding registered polled_every contains
reregister_poller endpoints fields default endpoint setting p =
    if contains endpoint endpoints
    then registered fields default endpoint (polled_every setting) p
    else p
