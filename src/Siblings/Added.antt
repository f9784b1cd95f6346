-- ===== src/Siblings/Added.antt =====
-- static/addons/chart-display/sibling.js: a chart that is added and removed again.
use fprime_gds.Base.{◌∙◌, ◌==◌, true, refl, [], ◌∷◌, ◌++◌, false, ◌≡◌, ap, List, ℕ, ==_self, arith}
use fprime_gds.Siblings.{SiblingSet, add, remove, is_sibling, without_first}
use fprime_gds.Siblings.Sync.{is_sibling-append}

without_first-last :
    (k : ℕ) (ks : List ℕ) → is_sibling k ks ≡ false → without_first k (ks ++ k ∷ []) ≡ ks
unfolding without_first is_sibling
without_first-last k [] h = rw (==_self k) refl
without_first-last k (j ∷ ks) h =
    let e : (j == k) ≡ false = ground (arith, h) in
    rw e (ap (λ r. j ∷ r) (without_first-last k ks (ground (arith, h))))

pub remove-add : (k : ℕ) (s : SiblingSet) → is_sibling k s.siblings ≡ false → remove k (add k s) ≡ s
unfolding remove add
remove-add k s h =
    let m : is_sibling k (s.siblings ++ k ∷ []) ≡ true =
      is_sibling-append k k s.siblings ∙ ground (arith, ==_self k) in
    rw (h, m, without_first-last k s.siblings h) refl
