-- ===== src/Json/Parser/Printed.antt =====
-- static/js/json.js: postReplacer puts the text of a flag object in its place.
use mathlib.Core.Path.{subst}
use mathlib.Core.Option.{some-injective}
use fprime_gds.Json.Parser.{
  post_replacer, literal_then, skip_white, up_to_quote, closed_flag, trim_start, Text, flag_at_head,
  replace_flags,
}
use fprime_gds.Base.{
  refl, inl, inr, ◌>>=◌, ℕ, length, ◌≡◌, ◌≤◌, some, arith, ◌∷◌, suc, Option-cases, [], zero,
  length-drop, ap, Bool-cases, ◌==◌, >>=-eq-some, ◌++◌, false, ◌∙◌, none,
}
use fprime_gds.Base.Decimal.{trim_start, is_white}
use fprime_gds.Base.Text.{Text, is_prefix, codes}

trim_start-length : (t : Text) → length (trim_start t) ≤ length t
unfolding trim_start
trim_start-length [] = omega arith
trim_start-length (c ∷ cs) = ground (arith, trim_start-length cs)

-- What follows a literal is not longer than the text, and white space was skipped before.
literal_then-length : (p t r : Text) → literal_then p (skip_white t) ≡ some r → length r ≤ length t
unfolding literal_then skip_white
literal_then-length p t r h =
    ground (arith, h, trim_start-length t, length-drop (length p) (trim_start t))

-- The second part of what is returned is bounded, where the returned pair is known.
second-bound : (n : ℕ) {a r : Text × Text} → length a.1 ≤ n → some a ≡ some r → length r.1 ≤ n
second-bound n {a} {r} b h = subst (λ x. length x.1 ≤ n) (some-injective a r h) b

up_to_quote-length : (t : Text) (r : Text × Text) → up_to_quote t ≡ some r → length r.1 ≤ length t
unfolding up_to_quote
up_to_quote-length [] r h = cc
up_to_quote-length (c ∷ cs) r h = elim (Bool-cases (c == b'"')) [
  | inl e ↦ second-bound (suc (length cs)) (omega arith) (rw e at h)
  | inr e ↦
      let (q, f, g) = >>=-eq-some (up_to_quote cs) (λ q. some (c ∷ q.0, q.1)) (rw e at h) in
      second-bound (suc (length cs)) (omega (arith, up_to_quote-length cs q f)) g
]

closed_flag-length : (e r : Text × Text) → closed_flag e ≡ some r → length r.1 ≤ length e.1
unfolding closed_flag
closed_flag-length ([], s) r h = cc
closed_flag-length (c ∷ t, s) r h =
    let (q, f, g) =
      >>=-eq-some (literal_then (codes "}") (skip_white s)) (λ q. some (c ∷ t, q)) h in
    second-bound (length s) (literal_then-length (codes "}") s q f) g

open_brace-length :
    (c : ℕ) (cs a : Text) → literal_then (codes "{") (c ∷ cs) ≡ some a → length a ≤ length cs
unfolding literal_then is_prefix
open_brace-length c cs a h = ground (arith, h)

-- Behind a flag object stands less than the text.
flag_at_head-length :
    (c : ℕ) (cs : Text) (r : Text × Text) → flag_at_head (c ∷ cs) ≡ some r → length r.1 ≤ length cs
unfolding flag_at_head
flag_at_head-length c cs r h =
    let (a, fa, ga) = >>=-eq-some (literal_then (codes "{") (c ∷ cs)) _ h in
    let (b, fb, gb) =
      >>=-eq-some (literal_then (codes "\"fprime{replacement\"") (skip_white a)) _ ga in
    let (d, fd, gd) = >>=-eq-some (literal_then (codes ":") (skip_white b)) _ gb in
    let (e, fe, ge) = >>=-eq-some (literal_then (codes "\"") (skip_white d)) _ gd in
    let (q, fq, gq) = >>=-eq-some (up_to_quote e) closed_flag ge in
    omega (
      arith,
      open_brace-length c cs a fa,
      literal_then-length (codes "\"fprime{replacement\"") a b fb,
      literal_then-length (codes ":") b d fd,
      literal_then-length (codes "\"") d e fe,
      up_to_quote-length e q fq,
      closed_flag-length q r gq,
    )

-- Any fuel from the length of the text on gives the same text.
replace_flags-fuel :
    (f g : ℕ) (t : Text) → length t ≤ f → length t ≤ g → replace_flags f t ≡ replace_flags g t
unfolding replace_flags
replace_flags-fuel zero zero t p q = refl
replace_flags-fuel zero (suc g) [] p q = refl
replace_flags-fuel zero (suc g) (c ∷ cs) p q = absurd (omega arith)
replace_flags-fuel (suc f) zero [] p q = refl
replace_flags-fuel (suc f) zero (c ∷ cs) p q = absurd (omega arith)
replace_flags-fuel (suc f) (suc g) [] p q = refl
replace_flags-fuel (suc f) (suc g) (c ∷ cs) p q = elim (Option-cases (flag_at_head (c ∷ cs))) [
  | inl e ↦
      rw (replace_flags, e)
        (ap (λ t. c ∷ t) (replace_flags-fuel f g cs (omega arith) (omega arith)))
  | inr (r, e) ↦
      let l = flag_at_head-length c cs r e in
      rw (replace_flags, e)
        (ap (λ t. r.0 ++ t) (replace_flags-fuel f g r.1 (omega arith) (omega arith)))
]

-- A text without a quote.
unfoldable pub NoQuote : Text → Type 0
NoQuote [] = Unit
NoQuote (c ∷ cs) = ((c == b'"') ≡ false) × NoQuote cs

up_to_quote-NoQuote : (t rest : Text) → NoQuote t → up_to_quote (t ++ b'"' ∷ rest) ≡ some (t, rest)
unfolding up_to_quote NoQuote
up_to_quote-NoQuote [] rest h = refl
up_to_quote-NoQuote (c ∷ t) rest (e, h) = rw (e, up_to_quote-NoQuote t rest h) refl

-- The flag object of a text, as JSON.stringify writes it without spaces, and what follows it.
abbrev pub flag_then : Text → Text → Text
flag_then t rest = codes "{\"fprime{replacement\":\"" ++ (t ++ b'"' ∷ b'}' ∷ rest)

flag_at_head-opened :
    (t : Text)
    → flag_at_head (codes "{\"fprime{replacement\":\"" ++ t) ≡ (up_to_quote t >>= closed_flag)
unfolding flag_at_head literal_then skip_white is_prefix trim_start is_white
flag_at_head-opened t = refl

closed_flag-closed : (c : ℕ) (t rest : Text) → closed_flag (c ∷ t, b'}' ∷ rest) ≡ some (c ∷ t, rest)
unfolding closed_flag literal_then skip_white is_prefix trim_start is_white
closed_flag-closed c t rest = refl

flag_at_head-flag_then :
    (c : ℕ) (t rest : Text)
    → NoQuote (c ∷ t)
    → flag_at_head (flag_then (c ∷ t) rest) ≡ some (c ∷ t, rest)
flag_at_head-flag_then c t rest h =
    flag_at_head-opened ((c ∷ t) ++ b'"' ∷ b'}' ∷ rest)
    ∙ ap (λ o. o >>= closed_flag) (up_to_quote-NoQuote (c ∷ t) (b'}' ∷ rest) h)
    ∙ closed_flag-closed c t rest

-- A text that JSON.stringify prints, and the text that is meant by it: flag objects stand for their
-- text, and each other object is empty or has a first key that does not begin with "f".
pub data Printed : Text → Text → Type 0 where
  end : Printed [] []
  other : {c : ℕ} {s u : Text} → (c == b'{') ≡ false → Printed s u → Printed (c ∷ s) (c ∷ u)
  empty : {s u : Text} → Printed s u → Printed (b'{' ∷ b'}' ∷ s) (b'{' ∷ b'}' ∷ u)
  keyed :
      {k : ℕ} {s u : Text}
      → (k == b'f') ≡ false
      → Printed (b'"' ∷ k ∷ s) u
      → Printed (b'{' ∷ b'"' ∷ k ∷ s) (b'{' ∷ u)
  flag :
      (c : ℕ) (t : Text) {s u : Text}
      → NoQuote (c ∷ t)
      → Printed s u
      → Printed (flag_then (c ∷ t) s) ((c ∷ t) ++ u)

post_replacer-unit :
    (c : ℕ) (s : Text) → flag_at_head (c ∷ s) ≡ none → post_replacer (c ∷ s) ≡ c ∷ post_replacer s
unfolding post_replacer replace_flags
post_replacer-unit c s h = rw (replace_flags, h) refl

post_replacer-flag :
    (c : ℕ) (s : Text) (r : Text × Text)
    → flag_at_head (c ∷ s) ≡ some r
    → post_replacer (c ∷ s) ≡ r.0 ++ post_replacer r.1
unfolding post_replacer replace_flags
post_replacer-flag c s r h =
    let l = flag_at_head-length c s r h in
    rw (replace_flags, h)
      (ap (λ t. r.0 ++ t) (replace_flags-fuel (length s) (length r.1) r.1 l (omega arith)))

no_flag-other : (c : ℕ) (s : Text) → (c == b'{') ≡ false → flag_at_head (c ∷ s) ≡ none
unfolding flag_at_head literal_then is_prefix
no_flag-other c s h = ground arith

no_flag-empty : (s : Text) → flag_at_head (b'{' ∷ b'}' ∷ s) ≡ none
unfolding flag_at_head literal_then is_prefix skip_white trim_start is_white
no_flag-empty s = refl

no_flag-keyed : (k : ℕ) (s : Text) → (k == b'f') ≡ false → flag_at_head (b'{' ∷ b'"' ∷ k ∷ s) ≡ none
unfolding flag_at_head literal_then is_prefix skip_white trim_start is_white
no_flag-keyed k s h = ground arith

-- In a text in which every brace opens a flag object, written without spaces and with a text that is
-- not empty and has no quote, or stands in front of a closing brace or of a quote and a unit other than
-- "f", postReplacer puts the text of each flag object in its place and leaves the rest as it is.
pub post_replacer-Printed : {s u : Text} → Printed s u → post_replacer s ≡ u
unfolding post_replacer replace_flags
post_replacer-Printed end = refl
post_replacer-Printed (other {c} {s} {u} h p) =
    post_replacer-unit c s (no_flag-other c s h) ∙ ap (λ t. c ∷ t) (post_replacer-Printed p)
post_replacer-Printed (empty {s} {u} p) =
    post_replacer-unit b'{' (b'}' ∷ s) (no_flag-empty s)
    ∙ ap (λ t. b'{' ∷ t)
        (post_replacer-unit b'}' s (no_flag-other b'}' s refl)
          ∙ ap (λ t. b'}' ∷ t) (post_replacer-Printed p))
post_replacer-Printed (keyed {k} {s} {u} h p) =
    post_replacer-unit b'{' (b'"' ∷ k ∷ s) (no_flag-keyed k s h)
    ∙ ap (λ t. b'{' ∷ t) (post_replacer-Printed p)
post_replacer-Printed (flag c t {s} {u} h p) =
    post_replacer-flag b'{' (codes "\"fprime{replacement\":\"" ++ ((c ∷ t) ++ b'"' ∷ b'}' ∷ s))
      (c ∷ t, s) (flag_at_head-flag_then c t s h)
    ∙ ap (λ u. (c ∷ t) ++ u) (post_replacer-Printed p)
