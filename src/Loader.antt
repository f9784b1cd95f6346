-- ===== src/Loader.antt =====
-- static/js/loader.js: the endpoints, the requests, the start-up and the polling.
mod Tests
pub mod Endpoints
pub mod Polls
pub mod Startup
pub use fprime_gds.Loader.Endpoints.{Context}
unfoldable pub use fprime_gds.Loader.Endpoints.{endpoints, load_url}
use fprime_gds.Base.{
  ℕ, List, Option, some, if◌then◌else◌, false, Bool, [], ◌∷◌, ◌++◌, true, map, ◌-◌, ◌≤◌, suc,
  length, none, leb, ◌+◌, ◌||◌, ◌==◌, ◌&&◌, not, zero,
}
use fprime_gds.Base.Text.{Text, codes, join, text_eq}
use fprime_gds.Base.Decimal.{show_ℕ}

-- What a request answers: the lists that the object has, `A` the type of an item.
pub record Response (A : Type 0) : Type 0 where
  pub history : Option (List A)
  pub files : Option (List A)
  pub logs : Option (List A)
  pub errors : Option (List Text)

-- data_items: one of the lists, or the response itself, which has no length.
pub data Items (A : Type 0) : Type 0 where
  listed : List A → Items A
  whole : Response A → Items A

-- What an endpoint's polling shows to the outside.
pub data Output (A : Type 0) : Type 0 where
  requested : Text → Output A
  delivered : Items A → List Text → Output A
  reported : Text → Text → Output A

-- An endpoint, its requests that wait for an answer, and its outputs.
pub record Polling (A : Type 0) : Type 0 where
  pub context : Context
  pub requests : ℕ
  pub outputs : List (Output A)

module _ {A : Type 0} where
  -- data.history || data.files || data.logs || data
  pub data_items : Response A → Items A
  data_items r = elim r.history [
    | some xs ↦ listed xs
    | none ↦ elim r.files [
      | some xs ↦ listed xs
      | none ↦ elim r.logs [ some xs ↦ listed xs | none ↦ whole r ]
    ]
  ]

  pub data_errors : Response A → List Text
  data_errors r = elim r.errors [ some es ↦ es | none ↦ [] ]

  -- data_items.length >= _settings.miscellaneous.response_object_limit
  pub fills_limit : Option ℕ → Items A → Bool
  fills_limit none items = false
  fills_limit (some limit) (whole r) = false
  fills_limit (some limit) (listed xs) = leb limit (length xs)

  pub output : List (Output A) → Polling A → Polling A
  output os p = record p { outputs = p.outputs ++ os }

  -- poller, up to the call of `load`
  pub poller : Polling A → Polling A
  unfolding output
  poller p =
      if p.context.running
      then record p { context = record p.context { queued = true } }
      else output (requested p.context.url ∷ []) (record p {
        context = record p.context { running = true; queued = false };
        requests = p.requests + 1;
      })

  -- .finally(…)
  pub finally_step : Polling A → Polling A
  unfolding poller
  finally_step p =
      let q = record p { context = record p.context { running = false } } in
      if p.context.queued then poller q else q

  -- .catch(…)
  pub caught : ℕ → Text → Polling A → Polling A
  unfolding output
  caught elapsed error p =
      output (reported p.context.name error ∷ [])
        (record p { context = record p.context { last = some elapsed } })

  -- .then(…); the callback shows what it was given, and `thrown` is the error that it throws.
  pub answered : Option ℕ → ℕ → Response A → Option Text → Polling A → Polling A
  unfolding output data_items data_errors fills_limit caught
  answered limit elapsed r thrown p =
      let items = data_items r in
      let c = p.context in
      let q =
        output (map (reported c.name) (data_errors r) ++ delivered items (data_errors r) ∷ [])
          (record p {
            context = record c {
              last = some elapsed;
              queued = c.queued || fills_limit limit items;
            };
          }) in
      elim thrown [ none ↦ q | some error ↦ caught elapsed error q ]

  -- One request is answered, and this is what its promise does.
  pub resolve : Option ℕ → ℕ → Response A → Option Text → Polling A → Polling A
  unfolding answered finally_step
  resolve limit elapsed r thrown p =
      finally_step (answered limit elapsed r thrown (record p { requests = p.requests - 1 }))

  pub reject : ℕ → Text → Polling A → Polling A
  unfolding caught finally_step
  reject elapsed error p =
      finally_step (caught elapsed error (record p { requests = p.requests - 1 }))

  -- The timer fires, or a request that waits for its answer has it.
  pub data Step : Polling A → Polling A → Type 0 where
    fires : {p : Polling A} → Step p (poller p)
    succeeds :
        {p : Polling A} (limit : Option ℕ) (elapsed : ℕ) (r : Response A) (thrown : Option Text)
        → 1 ≤ p.requests
        → Step p (resolve limit elapsed r thrown p)
    fails :
        {p : Polling A} (elapsed : ℕ) (error : Text)
        → 1 ≤ p.requests
        → Step p (reject elapsed error p)

  pub data Steps : Polling A → Polling A → Type 0 where
    done : {p : Polling A} → Steps p p
    then_step : {p q r : Polling A} → Steps p q → Step q r → Steps p r

-- The timers that run in the browser, by handle and period, and the next handle.
pub record Timers : Type 0 where
  pub active : List (ℕ × ℕ)
  pub next_handle : ℕ

-- clearInterval
pub clear_interval : ℕ → List (ℕ × ℕ) → List (ℕ × ℕ)
clear_interval h [] = []
clear_interval h ((k, period) ∷ ts) =
    let rest = clear_interval h ts in if k == h then rest else (k, period) ∷ rest

pub without_timer : Option ℕ → List (ℕ × ℕ) → List (ℕ × ℕ)
unfolding clear_interval
without_timer none ts = ts
without_timer (some h) ts = clear_interval h ts

-- a || b, where 0 counts as missing
pub or_period : Option ℕ → ℕ → ℕ
or_period none d = d
or_period (some zero) d = d
or_period (some (suc n)) d = suc n

-- registerPoller; `default` is config.dataPollIntervalsMs.default.
pub register_poller : Option ℕ → Option ℕ → Context → Timers → Context × Timers
unfolding without_timer or_period
register_poller interval default c t =
    let kept = without_timer c.timer t.active in
    (
      record c { timer = some t.next_handle },
      record {
        active = (t.next_handle, or_period interval (or_period default 1000)) ∷ kept;
        next_handle = t.next_handle + 1;
      },
    )

-- setup: the loads that wait, and whether the promise is settled.
pub data Settled : Type 0 where
  waiting resolved : Settled
  rejected : Text → Settled

pub record Setup : Type 0 where
  pub pending : ℕ
  pub settled : Settled

any_text : Text → List Text → Bool
any_text t [] = false
any_text t (u ∷ us) = text_eq t u || any_text t us

-- The loop; an endpoint is in the list when it has data already.
pub setup_loads : List Text → List Context → List Text
unfolding any_text
setup_loads loaded [] = []
setup_loads loaded (c ∷ cs) =
    let rest = setup_loads loaded cs in
    if c.startup && not (any_text c.name loaded) then c.url ∷ rest else rest

-- Only the first settling of a promise counts.
settle : Settled → Settled → Settled
settle waiting s = s
settle resolved s = resolved
settle (rejected e) s = rejected e

-- One load ends: with its data (`none`) or an error.
pub load_ends : Option Text → Setup → Setup
unfolding settle
load_ends (some e) s = record s { settled = settle s.settled (rejected e) }
load_ends none s =
    let left = s.pending - 1 in
    record { pending = left; settled = if left == 0 then settle s.settled resolved else s.settled }

pub setup : List Text → List Context → Setup
unfolding setup_loads
setup loaded cs = record { pending = length (setup_loads loaded cs); settled = waiting }

pub loads_end : List (Option Text) → Setup → Setup
unfolding load_ends
loads_end [] s = s
loads_end (r ∷ rs) s = loads_end rs (load_ends r s)
