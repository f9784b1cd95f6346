-- ===== src/Loader/Startup.antt =====
-- static/js/loader.js: how the promise of `setup` settles, and the timers of `registerPoller`.
use fprime_gds.Loader.{
  Settled, load_ends, loads_end, settle, clear_interval, without_timer, register_poller, Timers,
  Context, or_period, List, Option, ℕ, Text, rejected, waiting, resolved,
}
use fprime_gds.Base.{
  List, Option, ℕ, ◌≡◌, some, none, ◌≤◌, ◌+◌, length, [], if◌then◌else◌, ◌∷◌, ◌<◌, arith,
  Bool-cases, ◌==◌, suc, inl, refl, ◌∙◌, inr, Bool, ==_self, ◌-◌, zero, ap,
}
use fprime_gds.Base.Text.{Text}

unfoldable pub first_error : List (Option Text) → Option Text
first_error [] = none
first_error (none ∷ rs) = first_error rs
first_error (some e ∷ rs) = some e

-- What the promise should be behind `k` of `n` loads.
unfoldable pub outcome : Option Text → ℕ → ℕ → Settled
outcome (some e) k n = rejected e
outcome none k n = if k == n then resolved else waiting

if-same : (b : Bool) (s : Settled) → (if b then s else s) ≡ s
if-same b s = ground arith

loads_end-rejected :
    (rs : List (Option Text)) (n : ℕ) (e : Text)
    → (loads_end rs (record { pending = n; settled = rejected e })).settled ≡ rejected e
unfolding loads_end load_ends settle
loads_end-rejected [] n e = refl
loads_end-rejected (none ∷ rs) n e =
    ap (λ s. (loads_end rs (record { pending = n - 1; settled = s })).settled)
      (if-same (n - 1 == 0) (rejected e))
    ∙ loads_end-rejected rs (n - 1) e
loads_end-rejected (some f ∷ rs) n e = loads_end-rejected rs n e

not_last :
    (n : ℕ)
    → load_ends none (record { pending = suc (suc n); settled = waiting })
      ≡ record { pending = suc n; settled = waiting }
unfolding load_ends settle
not_last n =
    let e : suc (suc n) - 1 ≡ suc n = omega arith in
    rw e (ap (λ s. record { pending = suc n; settled = s }) none_left)
  where
    none_left : (if suc n == 0 then resolved else waiting) ≡ waiting
    none_left = ground arith

-- Behind any number of the loads of the start-up, in any order, the promise is rejected with the
-- first error if there was one, resolved if all loads have ended without one, and waiting else.
pub loads_end-outcome :
    (n : ℕ) (rs : List (Option Text))
    → 1 ≤ n
    → length rs ≤ n
    → (loads_end rs (record { pending = n; settled = waiting })).settled
      ≡ outcome (first_error rs) (length rs) n
unfolding loads_end load_ends settle first_error outcome
loads_end-outcome n [] h l = ground arith
loads_end-outcome n (some e ∷ rs) h l = loads_end-rejected rs n e
loads_end-outcome zero (none ∷ rs) h l = elim h [ ]
loads_end-outcome (suc zero) (none ∷ []) h l = refl
loads_end-outcome (suc zero) (none ∷ r ∷ rs) h l = absurd (omega arith)
loads_end-outcome (suc (suc n)) (none ∷ rs) h l =
    ap (λ s. (loads_end rs s).settled) (not_last n)
    ∙ loads_end-outcome (suc n) rs (omega arith) (omega arith)
    ∙ later (first_error rs)
  where
    later :
        (o : Option Text)
        → outcome o (length rs) (suc n) ≡ outcome o (suc (length rs)) (suc (suc n))
    later none = ground arith
    later (some e) = refl

-- Handles that were given out already.
unfoldable pub Below : ℕ → List (ℕ × ℕ) → Type 0
Below n [] = Unit
Below n ((k, period) ∷ ts) = (k < n) × Below n ts

clear_interval-absent : (n : ℕ) (ts : List (ℕ × ℕ)) → Below n ts → clear_interval n ts ≡ ts
unfolding clear_interval Below
clear_interval-absent n [] b = refl
clear_interval-absent n ((k, period) ∷ ts) (l, b) = ground (arith, l, clear_interval-absent n ts b)

clear_interval-Below : (n h : ℕ) (ts : List (ℕ × ℕ)) → Below n ts → Below n (clear_interval h ts)
unfolding clear_interval Below
clear_interval-Below n h [] b = tt
clear_interval-Below n h ((k, period) ∷ ts) (l, b) = elim (Bool-cases (k == h)) [
  | inl e ↦ rw e (clear_interval-Below n h ts b)
  | inr e ↦ rw e (l, clear_interval-Below n h ts b)
]

without_timer-Below :
    (n : ℕ) (o : Option ℕ) (ts : List (ℕ × ℕ)) → Below n ts → Below n (without_timer o ts)
unfolding without_timer
without_timer-Below n none ts b = b
without_timer-Below n (some h) ts b = clear_interval-Below n h ts b

-- Where handles are given out once, an endpoint registered twice has one timer, the second one's,
-- and the timers that are not its own stay.
pub register_poller-replaces :
    (first second default : Option ℕ) (c : Context) (t : Timers)
    → Below t.next_handle t.active
    → let (c1, t1) = register_poller first default c t in
      let (c2, t2) = register_poller second default c1 t1 in
      (t2.active
        ≡ (t.next_handle + 1, or_period second (or_period default 1000))
          ∷ without_timer c.timer t.active)
      × (c2.timer ≡ some (t.next_handle + 1))
unfolding register_poller clear_interval
register_poller-replaces first second default c t b =
    let kept = without_timer c.timer t.active in
    let e : clear_interval t.next_handle
          ((t.next_handle, or_period first (or_period default 1000)) ∷ kept)
        ≡ kept =
      rw (==_self t.next_handle) (
        clear_interval-absent t.next_handle kept
          (without_timer-Below t.next_handle c.timer t.active b)) in
    (ap (λ ts. (t.next_handle + 1, or_period second (or_period default 1000)) ∷ ts) e, refl)
