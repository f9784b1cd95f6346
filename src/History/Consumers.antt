-- ===== src/History/Consumers.antt =====
-- static/js/datastore.js: a consumer that is registered and deregistered again.
use fprime_gds.Base.{==_self, refl, [], ◌∷◌, ◌++◌, false, ◌≡◌, ◌==◌, ap, List, ℕ}
use fprime_gds.History.{HistoryHelper, Consumer, register, deregister, without}

module _ {S : Type 0} where
  -- No consumer of the list is the one with this identity.
  unfoldable pub NotIn : ℕ → List (Consumer S) → Type 0
  NotIn k [] = Unit
  NotIn k (c ∷ cs) = ((c.key == k) ≡ false) × NotIn k cs

  without-last :
      (c : Consumer S) (cs : List (Consumer S)) → NotIn c.key cs → without c.key (cs ++ c ∷ []) ≡ cs
  unfolding without NotIn
  without-last c [] n = rw (==_self c.key) refl
  without-last c (d ∷ cs) (e, n) = rw e (ap (λ r. d ∷ r) (without-last c cs n))

  pub deregister-register :
      (c : Consumer S) (h : HistoryHelper S)
      → NotIn c.key h.consumers
      → deregister c (register c h) ≡ h
  unfolding deregister register
  deregister-register c h n = rw (without-last c h.consumers n) refl
