-- ===== src/Base/Text.antt =====
-- JavaScript strings as lists of UTF-16 code units, and the library calls that the program makes
-- on them: `===`, `startsWith`, `includes`, `substring`, `split`, `join`.
use Prim.Native.Nat.{ℕ, ◌-◌}
use Prim.Native.Char.{code}
use Prim.Native.String.{String}
use mathlib.Core.Path.{◌≡◌, refl}
use mathlib.Core.Bool.{Bool, true, false, ◌&&◌, ◌||◌}
use mathlib.Core.List.{List, [], ◌∷◌, ◌++◌}
use native.Mathlib.Omega.{arith}
use fprime_gds.Base.Tests.{◌==◌}
use fprime_gds.Base.Lists.{take, drop}

abbrev pub Text : Type 0
Text = List ℕ

-- The code units of a literal; every literal of the development is ASCII.
abbrev pub codes : String → Text
codes String.[] = []
codes (String.◌∷◌ c s) = code c ∷ codes s

-- s === t
unfoldable pub text_eq : Text → Text → Bool
text_eq [] [] = true
text_eq [] (y ∷ ys) = false
text_eq (x ∷ xs) [] = false
text_eq (x ∷ xs) (y ∷ ys) = x == y && text_eq xs ys

pub text_eq_sound : (s t : Text) → text_eq s t ≡ true → s ≡ t
unfolding text_eq
text_eq_sound [] [] h = refl
text_eq_sound [] (y ∷ ys) h = ground arith
text_eq_sound (x ∷ xs) [] h = ground arith
text_eq_sound (x ∷ xs) (y ∷ ys) h = ground (arith, text_eq_sound xs ys)

pub text_eq_self : (s : Text) → text_eq s s ≡ true
unfolding text_eq
text_eq_self [] = refl
text_eq_self (x ∷ xs) = ground (arith, text_eq_self xs)

-- t.startsWith(p)
unfoldable pub is_prefix : Text → Text → Bool
is_prefix [] t = true
is_prefix (p ∷ ps) [] = false
is_prefix (p ∷ ps) (c ∷ cs) = p == c && is_prefix ps cs

-- t.includes(p), t.indexOf(p) !== -1
unfoldable pub includes : Text → Text → Bool
unfolding is_prefix
includes p [] = is_prefix p []
includes p (c ∷ cs) = is_prefix p (c ∷ cs) || includes p cs

-- t.substring(from, to), for from ≤ to
abbrev pub substring : Text → ℕ → ℕ → Text
substring t from to = take (to - from) (drop from t)

-- parts.join(separator)
unfoldable pub join : Text → List Text → Text
join sep [] = []
join sep (p ∷ []) = p
join sep (p ∷ q ∷ ps) = p ++ sep ++ join sep (q ∷ ps)

-- parts.join("")
abbrev pub concat : List Text → Text
concat [] = []
concat (p ∷ ps) = p ++ concat ps
