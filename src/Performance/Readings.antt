-- ===== src/Performance/Readings.antt =====
-- static/js/performance.js: what the window of the responsiveness holds.
use fprime_gds.Performance.{ResponsiveChecker, checker, reading, List, Option, ℕ, ℤ}
use mathlib.Core.List.{append_assoc}
use fprime_gds.Base.{List, Option, ℕ, ◌∷◌, some, ◌≡◌, [], last_n, ◌++◌, ◌∙◌, last_n-append, refl}
use fprime_gds.Base.Int.{ℤ}

unfoldable pub checks : List ℕ → ResponsiveChecker → ResponsiveChecker
unfolding checker
checks [] c = c
checks (t ∷ ts) c = checks ts (checker t c)

-- How late each check is behind the one before it.
unfoldable pub lateness : Option ℕ → ℕ → List ℕ → List ℤ
unfolding reading
lateness start resolution [] = []
lateness start resolution (t ∷ ts) = reading start resolution t ∷ lateness (some t) resolution ts

-- After checks at any times, one at least, the window holds the last readings of those it held and
-- of the lateness of each check behind the one before it, as many as the window has places.
pub checks-last :
    (t : ℕ) (ts : List ℕ) (c : ResponsiveChecker)
    → (checks (t ∷ ts) c).last
      ≡ last_n c.window_size (c.last ++ lateness c.start c.resolution (t ∷ ts))
unfolding checks checker lateness
checks-last t [] c = refl
checks-last t (u ∷ ts) c =
    checks-last u ts (checker t c)
    ∙ last_n-append c.window_size (c.last ++ reading c.start c.resolution t ∷ [])
        (lateness (some t) c.resolution (u ∷ ts))
    ∙ rw
        (append_assoc c.last (reading c.start c.resolution t ∷ [])
          (lateness (some t) c.resolution (u ∷ ts)))
        refl
