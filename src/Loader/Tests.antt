-- ===== src/Loader/Tests.antt =====
-- Runs of the polling, the start-up and the timers.
use fprime_gds.Loader.Endpoints.{session_argument, limit_argument, query, endpoint}
use fprime_gds.Loader.{
  endpoints, Polling, done, then_step, fires, succeeds, poller, resolve, Response, load_url,
  resolved, waiting, setup, loads_end, register_poller, Timers, some, none, ℕ, [], ◌∷◌, codes,
  setup_loads, any_text,
}
use fprime_gds.Loader.Polls.{IsPolling, Steps-IsPolling, resolve-follows_up}
use fprime_gds.Loader.Startup.{loads_end-outcome, register_poller-replaces, outcome, first_error}
use fprime_gds.Base.{some, none, ℕ, [], ◌∷◌, arith, ◌≡◌, refl, false, true}
use fprime_gds.Base.Text.{codes}

address :
    load_url (some (codes "a1")) (some 6000) (codes "/events")
    ≡ codes "/events?session=a1&limit=6000"
unfolding load_url fprime_gds.Base.Text.join fprime_gds.Base.Decimal.show_ℕ session_argument
    limit_argument query
address = refl

plain_address : load_url none (some 0) (codes "/events") ≡ codes "/events"
unfolding load_url fprime_gds.Base.Text.join fprime_gds.Base.Decimal.show_ℕ session_argument
    limit_argument query
plain_address = refl

abbrev idle : Polling ℕ
idle = record {
  context = record {
    name = codes "events";
    url = codes "/events";
    startup = false;
    last = none;
    running = false;
    queued = false;
    timer = none;
  };
  requests = 0;
  outputs = [];
}

abbrev two_items : Response ℕ
two_items = record { history = some (1 ∷ 2 ∷ []); files = none; logs = none; errors = none }

idle-IsPolling : IsPolling idle
idle-IsPolling = record { one_request = refl; follow_up = λ q. q }

abbrev polled : Polling ℕ
polled = poller (poller idle)

Steps-IsPolling_example : IsPolling (resolve (some 2) 30 two_items none polled)
unfolding poller
Steps-IsPolling_example =
    Steps-IsPolling
      (then_step (then_step (then_step done fires) fires)
        (succeeds (some 2) 30 two_items none (omega arith)))
      idle-IsPolling

resolve-follows_up_example :
    let q = resolve (some 3) 30 two_items none polled in
    (q.context.running ≡ true) × (q.context.queued ≡ false) × (q.requests ≡ 1)
unfolding poller
resolve-follows_up_example = resolve-follows_up (some 3) 30 two_items none polled refl

start_up : (setup [] endpoints).pending ≡ 4
unfolding setup setup_loads any_text endpoints endpoint
start_up = refl

loads_end-outcome_example :
    (loads_end (none ∷ none ∷ none ∷ none ∷ []) (record { pending = 4; settled = waiting })).settled
    ≡ resolved
unfolding outcome first_error
loads_end-outcome_example =
    loads_end-outcome 4 (none ∷ none ∷ none ∷ none ∷ []) (omega arith) (omega arith)

abbrev timers : Timers
timers = record { active = (0, 500) ∷ []; next_handle = 1 }

register_poller-replaces_example :
    (register_poller
      (some 200)
      none
      (register_poller (some 100) none idle.context timers).0
      (register_poller (some 100) none idle.context timers).1).1.active
    ≡ (2, 200) ∷ (0, 500) ∷ []
unfolding fprime_gds.Loader.Startup.Below fprime_gds.Loader.or_period
    fprime_gds.Loader.without_timer
register_poller-replaces_example =
    (register_poller-replaces (some 100) (some 200) none idle.context timers (omega arith, tt)).0
