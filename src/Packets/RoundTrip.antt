-- ===== src/Packets/RoundTrip.antt =====
-- static/addons/packet-selection/packet-selection.js: packets that are saved as they were mounted.
use fprime_gds.Base.{
  none, Option, refl, ◌∷◌, [], ◌++◌, some, false, ◌==◌, ap, sym, ℕ, ◌≡◌, arith, leb, List, map,
  ◌&&◌, true, ◌<◌, lt→ltb,
}
use fprime_gds.Packets.{
  packet_of, packets_of, save, mounted, with_error, validate, tokens_of, all_digits,
  is_packet_number, is_digit, PacketSelection, split_commas, trimmed,
}
use fprime_gds.Base.Decimal.RoundTrip.{
  digits_value-show_ℕ, show_ℕ-positive, trim-show_ℤ, AllDigits, show_ℕ-AllDigits, show_ℕ-cons,
}
use mathlib.Core.Path.{subst, ◌∙◌}
use mathlib.Core.List.{append_assoc, reverse, reverse-reverse, reverse-append}
use fprime_gds.Base.Text.{Text, join, codes}
use fprime_gds.Base.Decimal.{trim, trim_start, is_white, show_ℕ, show_ℤ}
use fprime_gds.Base.Int.{pos}
use fprime_gds.Json.Digits.{is_digit}

split_commas-AllDigits :
    (t rest : Text) → AllDigits t → split_commas (t ++ b',' ∷ rest) ≡ t ∷ split_commas rest
unfolding split_commas AllDigits
split_commas-AllDigits [] rest a = refl
split_commas-AllDigits (c ∷ t) rest (e, a) =
    let n : (c == b',') ≡ false = ground (arith, e) in rw (n, split_commas-AllDigits t rest a) refl

split_commas_last : (t : Text) → AllDigits t → split_commas t ≡ t ∷ []
unfolding split_commas AllDigits
split_commas_last [] a = refl
split_commas_last (c ∷ t) (e, a) =
    let n : (c == b',') ≡ false = ground (arith, e) in rw (n, split_commas_last t a) refl

-- A text that neither begins nor ends with white space is as it was behind trim.
trim-tight :
    (c d : ℕ) (s u : Text)
    → is_white c ≡ false
    → is_white d ≡ false
    → c ∷ s ≡ u ++ d ∷ []
    → trim (c ∷ s) ≡ c ∷ s
unfolding trim trim_start
trim-tight c d s u h k e = rw h (
    ap (λ t. reverse (trim_start (reverse t))) e
    ∙ (ap (λ r. reverse (trim_start r)) (reverse-append u (d ∷ []))
        ∙ rw k
            (ap reverse (sym (reverse-append u (d ∷ []))) ∙ reverse-reverse (u ++ d ∷ []) ∙ sym e)))

digit_not_white : (c : ℕ) → (leb b'0' c && leb c b'9') ≡ true → is_white c ≡ false
unfolding is_white
digit_not_white c h = ground arith

AllDigits-last :
    (c : ℕ) (t : Text)
    → AllDigits (c ∷ t)
    → (u : Text) × (d : ℕ) × (c ∷ t ≡ u ++ d ∷ []) × (is_white d ≡ false)
unfolding AllDigits
AllDigits-last c [] (e, a) = ([], c, refl, digit_not_white c e)
AllDigits-last c (x ∷ t) (e, a) =
    let (u, d, q, w) = AllDigits-last x t a in (c ∷ u, d, ap (λ r. c ∷ r) q, w)

-- The text of the packets, the first of which is `p`.
joined : ℕ → List ℕ → Text
unfolding join
joined p ps = join (codes ", ") (map show_ℕ (p ∷ ps))

joined_last :
    (p : ℕ) (ps : List ℕ)
    → (u : Text) × (d : ℕ) × (joined p ps ≡ u ++ d ∷ []) × (is_white d ≡ false)
unfolding joined join
joined_last p [] =
    let (c, t, e) = show_ℕ-cons p in
    let (u, d, q, w) = AllDigits-last c t (subst AllDigits e (show_ℕ-AllDigits p)) in
    (u, d, e ∙ q, w)
joined_last p (q ∷ ps) =
    let (u, d, e, w) = joined_last q ps in
    (
      show_ℕ p ++ codes ", " ++ u,
      d,
      ap (λ t. show_ℕ p ++ codes ", " ++ t) e
          ∙ sym (append_assoc (show_ℕ p ++ codes ", ") u (d ∷ [])),
      w,
    )

joined_first :
    (p : ℕ) (ps : List ℕ) → (c : ℕ) × (t : Text) × (joined p ps ≡ c ∷ t) × (is_white c ≡ false)
unfolding joined join AllDigits
joined_first p [] =
    let (c, t, e) = show_ℕ-cons p in
    (c, t, e, digit_not_white c (subst AllDigits e (show_ℕ-AllDigits p)).0)
joined_first p (q ∷ ps) =
    let (c, t, e) = show_ℕ-cons p in
    (
      c,
      t ++ codes ", " ++ joined q ps,
      ap (λ r. r ++ codes ", " ++ joined q ps) e,
      digit_not_white c (subst AllDigits e (show_ℕ-AllDigits p)).0,
    )

trim-joined : (p : ℕ) (ps : List ℕ) → trim (joined p ps) ≡ joined p ps
trim-joined p ps =
    let (c, s, e, h) = joined_first p ps in
    let (u, d, f, k) = joined_last p ps in
    subst (λ t. trim t ≡ t) (sym e) (trim-tight c d s u h k (sym e ∙ f))

split_commas-space :
    (q : ℕ) (ps : List ℕ)
    → split_commas (joined q ps) ≡ show_ℕ q ∷ map (λ n. 32 ∷ show_ℕ n) ps
    → split_commas (32 ∷ joined q ps) ≡ map (λ n. 32 ∷ show_ℕ n) (q ∷ ps)
unfolding split_commas
split_commas-space q ps h = rw h refl

split_commas-joined :
    (p : ℕ) (ps : List ℕ) → split_commas (joined p ps) ≡ show_ℕ p ∷ map (λ n. 32 ∷ show_ℕ n) ps
unfolding joined join
split_commas-joined p [] = split_commas_last (show_ℕ p) (show_ℕ-AllDigits p)
split_commas-joined p (q ∷ ps) =
    ap split_commas (append_assoc (show_ℕ p) (codes ", ") (joined q ps))
    ∙ split_commas-AllDigits (show_ℕ p) (32 ∷ joined q ps) (show_ℕ-AllDigits p)
    ∙ ap (λ r. show_ℕ p ∷ r) (split_commas-space q ps (split_commas-joined q ps))

all_digits-AllDigits : (t : Text) → AllDigits t → all_digits t ≡ true
unfolding all_digits AllDigits is_digit
all_digits-AllDigits [] a = refl
all_digits-AllDigits (c ∷ t) (e, a) = ground (arith, e, all_digits-AllDigits t a)

is_packet_number-cons :
    (c : ℕ) (t : Text) → b'0' < c → AllDigits (c ∷ t) → is_packet_number (c ∷ t) ≡ true
unfolding is_packet_number AllDigits is_digit
is_packet_number-cons c t p (e, a) = ground (arith, e, all_digits-AllDigits t a)

is_packet_number-show_ℕ : (n : ℕ) → 0 < n → is_packet_number (show_ℕ n) ≡ true
is_packet_number-show_ℕ n p =
    let (c, t, e, q) = show_ℕ-positive n p in
    subst (λ r. is_packet_number r ≡ true) (sym e)
      (is_packet_number-cons c t q (subst AllDigits e (show_ℕ-AllDigits n)))

trim-space : (t : Text) → trim (32 ∷ t) ≡ trim t
unfolding trim trim_start is_white
trim-space t = refl

trim-show_ℕ : (n : ℕ) → trim (show_ℕ n) ≡ show_ℕ n
unfolding show_ℤ
trim-show_ℕ n = trim-show_ℤ (pos n)

trimmed-show_ℕ :
    (n : ℕ) (t : Text) (ts : List Text)
    → trim t ≡ show_ℕ n
    → trimmed (t ∷ ts) ≡ show_ℕ n ∷ trimmed ts
unfolding trimmed
trimmed-show_ℕ n t ts h =
    let (c, cs, e) = show_ℕ-cons n in rw (trimmed, h ∙ e) (ap (λ r. r ∷ trimmed ts) (sym e))

trimmed-spaced : (ps : List ℕ) → trimmed (map (λ n. 32 ∷ show_ℕ n) ps) ≡ map show_ℕ ps
unfolding trimmed
trimmed-spaced [] = refl
trimmed-spaced (p ∷ ps) =
    trimmed-show_ℕ p (32 ∷ show_ℕ p) (map (λ n. 32 ∷ show_ℕ n) ps)
      (trim-space (show_ℕ p) ∙ trim-show_ℕ p)
    ∙ ap (λ r. show_ℕ p ∷ r) (trimmed-spaced ps)

tokens_of-joined : (p : ℕ) (ps : List ℕ) → tokens_of (joined p ps) ≡ show_ℕ p ∷ map show_ℕ ps
unfolding tokens_of
tokens_of-joined p ps =
    let (c, t, e, h) = joined_first p ps in
    ap tokens_of e
    ∙ ap trimmed (ap split_commas (sym e) ∙ split_commas-joined p ps)
    ∙ trimmed-show_ℕ p (show_ℕ p) (map (λ n. 32 ∷ show_ℕ n) ps) (trim-show_ℕ p)
    ∙ ap (λ r. show_ℕ p ∷ r) (trimmed-spaced ps)

module _ (nearest : ℕ → ℕ) (print : ℕ → Text) where
  -- Positive numbers that are exact, and that String prints in decimal digits.
  unfoldable pub AllExact : List ℕ → Type 0
  AllExact [] = Unit
  AllExact (n ∷ ns) = ((0 < n) × (nearest n ≡ n) × (print n ≡ show_ℕ n)) × AllExact ns

  map-AllExact : (ns : List ℕ) → AllExact ns → map print ns ≡ map show_ℕ ns
  unfolding AllExact
  map-AllExact [] h = refl
  map-AllExact (n ∷ ns) ((p, e, q), h) = rw (q, map-AllExact ns h) refl

  packet_of-show_ℕ : (n : ℕ) → 0 < n → nearest n ≡ n → packet_of nearest print (show_ℕ n) ≡ some n
  unfolding packet_of
  packet_of-show_ℕ n p e = rw (is_packet_number-show_ℕ n p, digits_value-show_ℕ n, e) refl

  packets_of-AllExact :
      (ns : List ℕ) → AllExact ns → packets_of nearest print (map show_ℕ ns) ≡ some ns
  unfolding packets_of AllExact
  packets_of-AllExact [] h = refl
  packets_of-AllExact (n ∷ ns) ((p, e, q), h) =
      rw (packet_of-show_ℕ n p e, packets_of-AllExact ns h, lt→ltb 0 n p) refl

  with_error-tokens :
      (o : Option (List ℕ)) (s : PacketSelection) → (with_error nearest print o s).1 ≡ o
  unfolding with_error
  with_error-tokens none s = refl
  with_error-tokens (some ns) s = refl

  -- Packets that are positive, exact and printed in decimal digits are saved as they were mounted.
  pub save-mounted :
      (ns : List ℕ) (s : PacketSelection)
      → AllExact ns
      → (save nearest print (mounted nearest print ns s)).1 ≡ some ns
  unfolding save validate mounted with_error joined
  save-mounted [] s h = refl
  save-mounted (n ∷ ns) s h =
      with_error-tokens
        (packets_of nearest print (tokens_of (trim (join (codes ", ") (map print (n ∷ ns))))))
        (mounted nearest print (n ∷ ns) s)
      ∙ ap (λ t. packets_of nearest print (tokens_of (trim (join (codes ", ") t))))
          (map-AllExact (n ∷ ns) h)
      ∙ ap (λ t. packets_of nearest print (tokens_of t)) (trim-joined n ns)
      ∙ ap (packets_of nearest print) (tokens_of-joined n ns)
      ∙ packets_of-AllExact (n ∷ ns) h
