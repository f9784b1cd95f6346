-- ===== src/Performance/Cached.antt =====
-- static/js/performance.js: a cached object that is added and removed again.
use fprime_gds.Base.{refl, [], ◌∷◌, false, ◌≡◌, ap, List, ℕ}
use fprime_gds.Base.Text.{Text, text_eq, text_eq_self}
use fprime_gds.Base.Store.{set_key}
use fprime_gds.Performance.{add_caching_object, remove_caching_object}

unfoldable pub NotCached : Text → List (Text × ℕ) → Type 0
NotCached name [] = Unit
NotCached name ((k, n) ∷ objects) = (text_eq k name ≡ false) × NotCached name objects

remove-absent :
    (name : Text) (objects : List (Text × ℕ))
    → NotCached name objects
    → remove_caching_object name objects ≡ objects
unfolding remove_caching_object NotCached
remove-absent name [] h = refl
remove-absent name ((k, n) ∷ objects) (e, h) =
    rw e (ap (λ r. (k, n) ∷ r) (remove-absent name objects h))

pub remove-add_caching_object :
    (name : Text) (size : ℕ) (objects : List (Text × ℕ))
    → NotCached name objects
    → remove_caching_object name (add_caching_object name size objects) ≡ objects
unfolding remove_caching_object add_caching_object set_key NotCached
remove-add_caching_object name size [] h = rw (text_eq_self name) refl
remove-add_caching_object name size ((k, n) ∷ objects) (e, h) =
    rw (e, e) (ap (λ r. (k, n) ∷ r) (remove-add_caching_object name size objects h))
