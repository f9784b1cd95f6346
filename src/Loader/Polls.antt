-- ===== src/Loader/Polls.antt =====
-- static/js/loader.js: what holds at any time of an endpoint's polling.
use fprime_gds.Loader.{
  Polling, Steps, Step, poller, resolve, reject, finally_step, answered, caught, fills_limit,
  data_items, output, Response, Option, ℕ, succeeds, then_step, Text, fails, fires, done,
}
use fprime_gds.Base.{
  ◌≡◌, Option, ℕ, if◌then◌else◌, true, ◌||◌, false, Bool-cases, ◌∙◌, some, ◌-◌, inl, ap, arith,
  none, inr, sym, refl,
}
use fprime_gds.Base.Text.{Text}

module _ {A : Type 0} where
  -- One request at most, exactly when the endpoint runs; a follow-up is only asked for then.
  pub record IsPolling (p : Polling A) : Type 0 where
    pub one_request : p.requests ≡ (if p.context.running then 1 else 0)
    pub follow_up : p.context.queued ≡ true → p.context.running ≡ true

  poller-IsPolling : (p : Polling A) → IsPolling p → IsPolling (poller p)
  unfolding poller output
  poller-IsPolling p h = elim (Bool-cases p.context.running) [
    | inl e ↦ rw e (record {
      one_request = h.one_request ∙ ap (λ b. if b then 1 else 0) e;
      follow_up = λ q. refl;
    })
    | inr e ↦ rw e (record {
      one_request = omega (arith, h.one_request ∙ ap (λ b. if b then 1 else 0) e);
      follow_up = λ q. refl;
    })
  ]

  finally_step-idle :
      (p : Polling A)
      → p.requests ≡ 0
      → ((finally_step p).context.running ≡ p.context.queued)
        × ((finally_step p).context.queued ≡ false)
        × ((finally_step p).requests ≡ (if p.context.queued then 1 else 0))
  unfolding finally_step poller output
  finally_step-idle p e = elim (Bool-cases p.context.queued) [
    | inl q ↦ rw q (refl, refl, omega (arith, e))
    | inr q ↦ rw q (refl, refl, e)
  ]

  finally_step-IsPolling : (p : Polling A) → p.requests ≡ 0 → IsPolling (finally_step p)
  finally_step-IsPolling p e =
      let (runs, queue, one) = finally_step-idle p e in
      record {
        one_request = one ∙ ap (λ b. if b then 1 else 0) (sym runs);
        follow_up = λ q. cc (q, queue);
      }

  answered-requests :
      (limit : Option ℕ) (elapsed : ℕ) (r : Response A) (thrown : Option Text) (p : Polling A)
      → (answered limit elapsed r thrown p).requests ≡ p.requests
  unfolding answered output caught
  answered-requests limit elapsed r none p = refl
  answered-requests limit elapsed r (some e) p = refl

  answered-queued :
      (limit : Option ℕ) (elapsed : ℕ) (r : Response A) (thrown : Option Text) (p : Polling A)
      → (answered limit elapsed r thrown p).context.queued
        ≡ (p.context.queued || fills_limit limit (data_items r))
  unfolding answered output caught
  answered-queued limit elapsed r none p = refl
  answered-queued limit elapsed r (some e) p = refl

  one_at_most : (p : Polling A) → IsPolling p → p.requests - 1 ≡ 0
  one_at_most p h = ground (arith, h.one_request)

  resolve-IsPolling :
      (limit : Option ℕ) (elapsed : ℕ) (r : Response A) (thrown : Option Text) (p : Polling A)
      → IsPolling p
      → IsPolling (resolve limit elapsed r thrown p)
  unfolding resolve
  resolve-IsPolling limit elapsed r thrown p h =
      finally_step-IsPolling
        (answered limit elapsed r thrown (record p { requests = p.requests - 1 }))
        (answered-requests limit elapsed r thrown (record p { requests = p.requests - 1 })
          ∙ one_at_most p h)

  reject-IsPolling :
      (elapsed : ℕ) (error : Text) (p : Polling A)
      → IsPolling p
      → IsPolling (reject elapsed error p)
  unfolding reject caught output
  reject-IsPolling elapsed error p h =
      finally_step-IsPolling (caught elapsed error (record p { requests = p.requests - 1 }))
        (one_at_most p h)

  Step-IsPolling : {p q : Polling A} → Step p q → IsPolling p → IsPolling q
  Step-IsPolling {p} fires h = poller-IsPolling p h
  Step-IsPolling {p} (succeeds limit elapsed r thrown w) h =
      resolve-IsPolling limit elapsed r thrown p h
  Step-IsPolling {p} (fails elapsed error w) h = reject-IsPolling elapsed error p h

  -- Whatever the order of timer and answers, an endpoint that had at most one request has at most
  -- one request at any time, exactly when it is marked as running, and only a running endpoint is
  -- marked as queued.
  pub Steps-IsPolling : {p q : Polling A} → Steps p q → IsPolling p → IsPolling q
  Steps-IsPolling done h = h
  Steps-IsPolling (then_step ss s) h = Step-IsPolling s (Steps-IsPolling ss h)

  -- When the answer of a running endpoint comes, the next request follows at once if the timer fired
  -- in between or the answer fills the limit, and otherwise the endpoint is idle; in both cases
  -- nothing is queued any more.
  pub resolve-follows_up :
      (limit : Option ℕ) (elapsed : ℕ) (r : Response A) (thrown : Option Text) (p : Polling A)
      → p.requests ≡ 1
      → let asked = p.context.queued || fills_limit limit (data_items r) in
        let q = resolve limit elapsed r thrown p in
        (q.context.running ≡ asked)
        × (q.context.queued ≡ false)
        × (q.requests ≡ (if asked then 1 else 0))
  unfolding resolve
  resolve-follows_up limit elapsed r thrown p w =
      let waits = record p { requests = p.requests - 1 } in
      let e : waits.requests ≡ 0 = omega (arith, w) in
      rw (sym (answered-queued limit elapsed r thrown waits)) (
        finally_step-idle (answered limit elapsed r thrown waits)
          (answered-requests limit elapsed r thrown waits ∙ e))
