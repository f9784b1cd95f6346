-- ===== src/Json/Scan/Printed.antt =====
-- static/js/json.js: the scan on the text of an integer that no number holds.
use mathlib.Core.Path.{subst}
use mathlib.Core.Option.{some-injective}
use fprime_gds.Base.{
  refl, ℕ, zero, suc, ◌+◌, ◌*◌, ◌-◌, ◌<◌, ◌≤◌, ◌≡◌, true, false, arith, [], ◌∷◌, some, none, length,
  get_elem?, Option-cases, inl, inr, ◌==◌, lt→ltb, dec_lt, get_elem?-past, ap, sym, ◌∙◌,
}
use fprime_gds.Base.Text.{is_prefix, Text}
use fprime_gds.Base.Int.{ℤ, pos, negsuc}
use fprime_gds.Base.Decimal.{show_ℕ, show_ℤ, digits_value, digit_value}
use fprime_gds.Base.Decimal.RoundTrip.{
  AllDigits, show_ℕ-AllDigits, show_ℕ-positive, digits_value-show_ℕ,
}
use fprime_gds.Json.Digits.{is_digit, is_digit_at}
use fprime_gds.Json.Scan.{
  number_units, scan_number_token, ends_in_digit, unsigned, has_leading_zero, decimal,
  is_unsafe_integer, max_safe_integer, match_gate_token, match_gate_tokens, scan_and_replace,
  replacement_for, number,
}
use fprime_gds.Json.Scan.Token.{IsUnsafe, scan_and_replace-IsUnsafe}

digit_at-AllDigits : (t : Text) (j : ℕ) → AllDigits t → j < length t → is_digit_at t j ≡ true
unfolding is_digit_at is_digit AllDigits
digit_at-AllDigits [] j a h = absurd (omega arith)
digit_at-AllDigits (c ∷ t) zero (e, a) h = e
digit_at-AllDigits (c ∷ t) (suc j) (e, a) h = digit_at-AllDigits t j a (omega arith)

-- A text of digits from `i` on is one integral token from there.
number_units-digits :
    (f : ℕ) (s : Text) (i : ℕ)
    → ((j : ℕ) → i ≤ j → j < length s → is_digit_at s j ≡ true)
    → i ≤ length s
    → length s ≤ i + f
    → number_units f s i true ≡ record { end = length s; is_integer = true }
unfolding number_units is_digit_at
number_units-digits zero s i d h k = let e : i ≡ length s = omega arith in rw e refl
number_units-digits (suc f) s i d h k = elim (dec_lt i (length s)) [
  | no l ↦
      let e : i ≡ length s = omega arith in
      rw (number_units, get_elem?-past s i (omega arith)) (rw e refl)
  | yes l ↦ elim (Option-cases (get_elem? s i)) [
    | inl e ↦ absurd (let x : false ≡ true = rw e at (d i (omega arith) l) in cc)
    | inr (c, e) ↦
        let x : is_digit c ≡ true = rw e at (d i (omega arith) l) in
        rw (number_units, e)
          (rw x (
            number_units-digits f s (i + 1) (λ j p q. d j (omega arith) q) (omega arith)
              (omega arith)))
  ]
]

ends_in_digit-AllDigits : (c : ℕ) (t : Text) → AllDigits (c ∷ t) → ends_in_digit (c ∷ t) ≡ true
unfolding ends_in_digit AllDigits is_digit
ends_in_digit-AllDigits c [] (e, a) = e
ends_in_digit-AllDigits c (d ∷ t) (e, a) = ends_in_digit-AllDigits d t a

decimal-AllDigits :
    (acc : ℕ) (t : Text) → AllDigits t → digits_value 10 acc t ≡ some (decimal acc t)
unfolding digits_value digit_value decimal AllDigits
decimal-AllDigits acc [] a = refl
decimal-AllDigits acc (c ∷ t) (e, a) =
    ground (arith, e, decimal-AllDigits (acc * 10 + (c - 48)) t a)

decimal-show_ℕ : (n : ℕ) → decimal 0 (show_ℕ n) ≡ n
decimal-show_ℕ n =
    some-injective (decimal 0 (show_ℕ n)) n
      (sym (decimal-AllDigits 0 (show_ℕ n) (show_ℕ-AllDigits n)) ∙ digits_value-show_ℕ n)

no_zero-positive : (d : ℕ) (ds : Text) → b'0' < d → has_leading_zero (d ∷ ds) ≡ false
unfolding has_leading_zero
no_zero-positive d [] p = refl
no_zero-positive d (c ∷ ds) p = ground arith

no_gate-digit : (d : ℕ) (ds : Text) → AllDigits (d ∷ ds) → match_gate_token (d ∷ ds) 0 ≡ none
unfolding match_gate_token match_gate_tokens is_prefix AllDigits
no_gate-digit d ds a = ground (arith, a.0)

digits-IsUnsafe :
    (d : ℕ) (ds : Text)
    → AllDigits (d ∷ ds)
    → b'0' < d
    → max_safe_integer < decimal 0 (d ∷ ds)
    → IsUnsafe d ds
unfolding is_unsafe_integer unsigned scan_number_token AllDigits is_digit
digits-IsUnsafe d ds a p m =
    let plain : (d == b'-') ≡ false = ground arith in
    record {
      starts = ground (arith, a.0);
      no_gate = rw plain (no_gate-digit d ds a);
      scanned = rw plain (
          number_units-digits (length (d ∷ ds)) (d ∷ ds) 0
            (λ j h l. digit_at-AllDigits (d ∷ ds) j a l) (omega arith) (omega arith));
      unsafe =
          rw
            (
              plain,
              ends_in_digit-AllDigits d ds a,
              no_zero-positive d ds p,
              lt→ltb max_safe_integer (decimal 0 (d ∷ ds)) m,
            )
            refl;
    }

digit_behind_sign :
    (t : Text)
    → AllDigits t
    → (j : ℕ) → 1 ≤ j
    → j < length (b'-' ∷ t)
    → is_digit_at (b'-' ∷ t) j ≡ true
unfolding is_digit_at
digit_behind_sign t a zero h l = absurd (omega arith)
digit_behind_sign t a (suc j) h l = digit_at-AllDigits t j a (omega arith)

minus-IsUnsafe :
    (d : ℕ) (ds : Text)
    → AllDigits (d ∷ ds)
    → b'0' < d
    → max_safe_integer < decimal 0 (d ∷ ds)
    → IsUnsafe b'-' (d ∷ ds)
unfolding is_unsafe_integer unsigned scan_number_token ends_in_digit is_digit_at match_gate_token
minus-IsUnsafe d ds a p m = record {
  starts = refl;
  no_gate = no_gate-digit d ds a;
  scanned =
      number_units-digits (length (b'-' ∷ d ∷ ds)) (b'-' ∷ d ∷ ds) 1 (digit_behind_sign (d ∷ ds) a)
        (omega arith) (omega arith);
  unsafe =
      rw
        (
          ends_in_digit-AllDigits d ds a,
          no_zero-positive d ds p,
          lt→ltb max_safe_integer (decimal 0 (d ∷ ds)) m,
        )
        refl;
}

-- |z|
abbrev pub magnitude : ℤ → ℕ
magnitude (pos n) = n
magnitude (negsuc n) = suc n

-- What the scan needs of the text of a number.
unsafe_digits :
    (n d : ℕ) (ds : Text)
    → show_ℕ n ≡ d ∷ ds
    → max_safe_integer < n
    → max_safe_integer < decimal 0 (d ∷ ds)
unsafe_digits n d ds e h =
    subst (λ k. max_safe_integer < k) (sym (ap (decimal 0) (sym e) ∙ decimal-show_ℕ n)) h

-- The scan puts the flag object of its text in place of an integer outside of the safe range.
pub scan_and_replace-show_ℤ :
    (z : ℤ)
    → max_safe_integer < magnitude z
    → scan_and_replace (show_ℤ z) ≡ some (replacement_for number (show_ℤ z))
unfolding show_ℤ
scan_and_replace-show_ℤ (pos n) h =
    let (d, ds, e, p) = show_ℕ-positive n (omega arith) in
    rw e (
      scan_and_replace-IsUnsafe d ds (
        digits-IsUnsafe d ds (subst AllDigits e (show_ℕ-AllDigits n)) p (unsafe_digits n d ds e h)))
scan_and_replace-show_ℤ (negsuc n) h =
    let (d, ds, e, p) = show_ℕ-positive (suc n) (omega arith) in
    rw e (
      scan_and_replace-IsUnsafe b'-' (d ∷ ds) (
        minus-IsUnsafe d ds (subst AllDigits e (show_ℕ-AllDigits (suc n))) p
          (unsafe_digits (suc n) d ds e h)))
