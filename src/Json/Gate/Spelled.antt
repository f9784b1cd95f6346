-- ===== src/Json/Gate/Spelled.antt =====
-- static/js/json.js: the ways in which a text of JSON can write the key of flag objects, and that the
-- gate sees each of them.
use fprime_gds.Json.Gate.{
  may_contain_flag_object, key_escape, escape_at_head, hex_code, hex_digit, fold_case,
  conversion_key,
}
use fprime_gds.Base.Text.{Text, codes, includes, is_prefix}
use fprime_gds.Base.Decimal.{digit_value}
use fprime_gds.Base.{
  ℕ, ◌≡◌, some, ◌++◌, ◌∷◌, [], true, ◌+◌, ◌*◌, ◌<◌, arith, refl, map, take, ◌||◌, ◌⊎◌, inl, inr,
  List, Bool, false, ◌==◌, Bool-cases, ap, ◌/◌, ◌∙◌, ◌%◌,
}

-- A unit in a text of JSON: itself, or \u00 and its two hexadecimal digits, each in either case.
pub data SpelledUnit (c : ℕ) : Text → Type 0 where
  literal : SpelledUnit c (c ∷ [])
  escaped :
      {h l d e : ℕ}
      → digit_value h ≡ some d
      → digit_value l ≡ some e
      → c ≡ 16 * d + e
      → SpelledUnit c (codes "\\u00" ++ h ∷ l ∷ [])

pub data Spelled : Text → Text → Type 0 where
  nil : Spelled [] []
  cons : {c : ℕ} {cs t u : Text} → SpelledUnit c u → Spelled cs t → Spelled (c ∷ cs) (u ++ t)

-- The key stands somewhere in the text, unit by unit.
pub data WritesKey : Text → Type 0 where
  writes :
      (before : Text) {t : Text} (after : Text)
      → Spelled conversion_key t
      → WritesKey (before ++ (t ++ after))

digit_value-fold_case : (h d : ℕ) → digit_value h ≡ some d → (fold_case h ≡ hex_digit d) × (d < 16)
unfolding digit_value fold_case hex_digit
digit_value-fold_case h d e = ground arith

occurs : ℕ → List ℕ → Bool
occurs c [] = false
occurs c (k ∷ ks) = k == c || occurs c ks

fold_plain : (fold_case b'\\' ≡ b'\\') × (fold_case b'u' ≡ b'u') × (fold_case b'0' ≡ b'0')
unfolding fold_case
fold_plain = (refl, refl, refl)

hex_code-digits :
    (c d e : ℕ) → d < 16 → e < 16 → c ≡ 16 * d + e → hex_code c ≡ hex_digit d ∷ hex_digit e ∷ []
unfolding hex_code
hex_code-digits c d e p q r =
    let x : c / 16 ≡ d = omega arith in let y : c % 16 ≡ e = omega arith in rw (x, y) refl

escape-is_prefix :
    (c h l d e : ℕ) (rest : Text)
    → digit_value h ≡ some d
    → digit_value l ≡ some e
    → c ≡ 16 * d + e
    → is_prefix
        (codes "\\u00" ++ hex_code c)
        (map fold_case (take 6 (codes "\\u00" ++ h ∷ l ∷ rest)))
      ≡ true
unfolding is_prefix
escape-is_prefix c h l d e rest p q r =
    let (fh, dh) = digit_value-fold_case h d p in
    let (fl, dl) = digit_value-fold_case l e q in
    let (b, u, z) = fold_plain in rw (hex_code-digits c d e dh dl r, b, u, z, fh, fl) (ground arith)

escape_at_head-occurs :
    (ks : Text) (c h l d e : ℕ) (rest : Text)
    → occurs c ks ≡ true
    → digit_value h ≡ some d
    → digit_value l ≡ some e
    → c ≡ 16 * d + e
    → escape_at_head ks (codes "\\u00" ++ h ∷ l ∷ rest) ≡ true
unfolding escape_at_head occurs
escape_at_head-occurs [] c h l d e rest o p q r = absurd cc
escape_at_head-occurs (k ∷ ks) c h l d e rest o p q r = elim (Bool-cases (k == c)) [
  | inl same ↦
      let x : c ≡ k = ground arith in
      let f = escape-is_prefix k h l d e rest p q (omega arith) in rw f refl
  | inr other ↦
      let f = escape_at_head-occurs ks c h l d e rest (rw other at o) p q r in rw f (ground arith)
]

or_true : (b : Bool) → (b || true) ≡ true
or_true true = refl
or_true false = refl

key_escape-head :
    (c : ℕ) (cs : Text) → escape_at_head conversion_key (c ∷ cs) ≡ true → key_escape (c ∷ cs) ≡ true
unfolding key_escape
key_escape-head c cs h = ap (λ x. x || key_escape cs) h

key_escape-tail : (c : ℕ) (cs : Text) → key_escape cs ≡ true → key_escape (c ∷ cs) ≡ true
unfolding key_escape
key_escape-tail c cs h =
    ap (λ x. escape_at_head conversion_key (c ∷ cs) || x) h
    ∙ or_true (escape_at_head conversion_key (c ∷ cs))

key_escape-append : (before s : Text) → key_escape s ≡ true → key_escape (before ++ s) ≡ true
key_escape-append [] s h = h
key_escape-append (c ∷ cs) s h = key_escape-tail c (cs ++ s) (key_escape-append cs s h)

includes-append : (p before s : Text) → includes p s ≡ true → includes p (before ++ s) ≡ true
unfolding includes
includes-append p [] s h = h
includes-append p (c ∷ cs) s h = ground (arith, includes-append p cs s h)

is_prefix-append : (p s : Text) → is_prefix p (p ++ s) ≡ true
unfolding is_prefix
is_prefix-append [] s = refl
is_prefix-append (c ∷ p) s = ground (arith, is_prefix-append p s)

is_prefix-includes : (p s : Text) → is_prefix p s ≡ true → includes p s ≡ true
unfolding includes
is_prefix-includes p [] h = h
is_prefix-includes p (c ∷ s) h = rw h refl

-- Every unit of the first text stands in the second one.
Within : Text → Text → Type 0
Within [] ks = Unit
Within (c ∷ cs) ks = (occurs c ks ≡ true) × Within cs ks

-- What is spelled is written as it is, or with an escape of one of its units.
Spelled-cases :
    {cs t : Text} (after : Text)
    → Spelled cs t
    → Within cs conversion_key
    → (t ≡ cs) ⊎ (key_escape (t ++ after) ≡ true)
unfolding Within
Spelled-cases after nil w = inl refl
Spelled-cases after (cons {c} {cs} {t} literal s) (o, w) = elim (Spelled-cases after s w) [
  | inl e ↦ inl (ap (λ r. c ∷ r) e)
  | inr e ↦ inr (key_escape-append (c ∷ []) (t ++ after) e)
]
Spelled-cases after (cons {c} {cs} {t} (escaped {h} {l} {d} {e} p q r) s) (o, w) = inr (
    key_escape-head b'\\' (codes "u00" ++ h ∷ l ∷ (t ++ after))
      (escape_at_head-occurs conversion_key c h l d e (t ++ after) o p q r))

conversion_key-Within : Within conversion_key conversion_key
unfolding Within occurs
conversion_key-Within = (
  refl,
  (
    refl,
    (
      refl,
      (
        refl,
        (
          refl,
          (
            refl,
            (
              refl,
              (
                refl,
                (refl, (refl, (refl, (refl, (refl, (refl, (refl, (refl, (refl, (refl, tt)))))))))),
              ),
            ),
          ),
        ),
      ),
    ),
  ),
)

-- Where the key of flag objects stands in a text, in whatever spelling, the gate sees it.
pub WritesKey-may_contain_flag_object : {s : Text} → WritesKey s → may_contain_flag_object s ≡ true
unfolding may_contain_flag_object
WritesKey-may_contain_flag_object (writes before {t} after w) =
    elim (Spelled-cases after w conversion_key-Within) [
      | inl e ↦
          rw
            (includes-append conversion_key before (t ++ after) (
              is_prefix-includes conversion_key (t ++ after) (
                ap (λ x. is_prefix conversion_key (x ++ after)) e
                ∙ is_prefix-append conversion_key after)))
            refl
      | inr e ↦
          ap (λ x. includes conversion_key (before ++ (t ++ after)) || x)
            (key_escape-append before (t ++ after) e)
          ∙ or_true (includes conversion_key (before ++ (t ++ after)))
    ]
