-- ===== src/Json/Scan/Token.antt =====
-- static/js/json.js: the scan on a text that is one integer outside of the safe range.
use mathlib.Core.List.{append-nil}
use fprime_gds.Base.{
  refl, ℕ, suc, ◌+◌, ◌-◌, ◌≡◌, true, false, arith, [], ◌∷◌, some, none, length, take, drop, ◌==◌,
  ◌||◌, if◌then◌else◌, get_elem?-past, ap, ◌∙◌,
}
use fprime_gds.Base.Text.{Text, substring}
use fprime_gds.Json.Digits.{is_digit}
use fprime_gds.Json.Scan.{
  Scan, is_gate_token_start, scan_number_token, is_unsafe_integer, match_gate_token, scan_step,
  scan_number, gate_or_number, emit, scan_from, finish, started, scan_and_replace, replacement_for,
  number,
}

take-length : (t : Text) → take (length t) t ≡ t
take-length [] = refl
take-length (c ∷ t) = ap (λ u. c ∷ u) (take-length t)

drop-length : (t : Text) → drop (length t) t ≡ []
drop-length [] = refl
drop-length (c ∷ t) = drop-length t

-- A text that is one token, an integer outside of the safe range; `c` is its first unit.
pub record IsUnsafe (c : ℕ) (cs : Text) : Type 0 where
  pub starts : (c == b'-' || is_digit c) ≡ true
  pub no_gate : match_gate_token (c ∷ cs) (if c == b'-' then 1 else 0) ≡ none
  pub scanned :
      scan_number_token (c ∷ cs) (if c == b'-' then 1 else 0)
      ≡ record { end = length (c ∷ cs); is_integer = true }
  pub unsafe : is_unsafe_integer true (c ∷ cs) ≡ true

whole : (c : ℕ) (cs : Text) → substring (c ∷ cs) 0 (length (c ∷ cs)) ≡ c ∷ cs
whole c cs =
    let e : suc (length cs) - 0 ≡ suc (length cs) = omega arith in rw e (take-length (c ∷ cs))

scan_number-unsafe :
    (c : ℕ) (cs : Text) (j : ℕ)
    → scan_number_token (c ∷ cs) j ≡ record { end = length (c ∷ cs); is_integer = true }
    → is_unsafe_integer true (c ∷ cs) ≡ true
    → scan_number (c ∷ cs) 0 j started
      ≡ (length (c ∷ cs), emit (c ∷ cs) 0 (length (c ∷ cs)) number started)
unfolding scan_number
scan_number-unsafe c cs j scanned unsafe = rw (scanned, whole c cs, unsafe) (ground arith)

gate_or_number-unsafe :
    (c : ℕ) (cs : Text) (j : ℕ)
    → match_gate_token (c ∷ cs) j ≡ none
    → scan_number_token (c ∷ cs) j ≡ record { end = length (c ∷ cs); is_integer = true }
    → is_unsafe_integer true (c ∷ cs) ≡ true
    → gate_or_number (match_gate_token (c ∷ cs) j) (c ∷ cs) 0 j started
      ≡ (length (c ∷ cs), emit (c ∷ cs) 0 (length (c ∷ cs)) number started)
unfolding gate_or_number
gate_or_number-unsafe c cs j no_gate scanned unsafe =
    ap (λ g. gate_or_number g (c ∷ cs) 0 j started) no_gate
    ∙ scan_number-unsafe c cs j scanned unsafe

scan_step-IsUnsafe :
    (c : ℕ) (cs : Text)
    → IsUnsafe c cs
    → scan_step (c ∷ cs) c 0 started
      ≡ (length (c ∷ cs), emit (c ∷ cs) 0 (length (c ∷ cs)) number started)
unfolding scan_step is_digit is_gate_token_start
scan_step-IsUnsafe c cs u =
    let quote : (c == b'"') ≡ false = ground (arith, u.starts) in
    let starts : (is_gate_token_start c || c == b'-' || is_digit c) ≡ true =
      ground (arith, u.starts) in
    rw (quote, starts)
      (gate_or_number-unsafe c cs (if c == b'-' then 1 else 0) u.no_gate u.scanned u.unsafe)

scan_from-end : (f : ℕ) (s : Text) (st : Scan) → scan_from (suc f) s (length s) st ≡ some st
unfolding scan_from
scan_from-end f s st = rw (scan_from, get_elem?-past s (length s) (omega arith)) refl

scan_from-IsUnsafe :
    (c : ℕ) (cs : Text)
    → IsUnsafe c cs
    → scan_from (length (c ∷ cs) + 1) (c ∷ cs) 0 started
      ≡ some (emit (c ∷ cs) 0 (length (c ∷ cs)) number started)
unfolding scan_from
scan_from-IsUnsafe c cs u =
    let e : length (c ∷ cs) + 1 ≡ suc (suc (length cs)) = omega arith in
    ap (λ f. scan_from f (c ∷ cs) 0 started) e
    ∙ ap (λ p. scan_from (suc (length cs)) (c ∷ cs) p.0 p.1) (scan_step-IsUnsafe c cs u)
    ∙ scan_from-end (length cs) (c ∷ cs) (emit (c ∷ cs) 0 (length (c ∷ cs)) number started)

finish-unsafe :
    (c : ℕ) (cs : Text)
    → finish (c ∷ cs) (emit (c ∷ cs) 0 (length (c ∷ cs)) number started)
      ≡ replacement_for number (c ∷ cs)
unfolding finish emit
finish-unsafe c cs =
    let e : (length (c ∷ cs) == 0) ≡ false = ground arith in
    rw (e, whole c cs, drop-length cs) (append-nil (replacement_for number (c ∷ cs)))

pub scan_and_replace-IsUnsafe :
    (c : ℕ) (cs : Text)
    → IsUnsafe c cs
    → scan_and_replace (c ∷ cs) ≡ some (replacement_for number (c ∷ cs))
unfolding scan_and_replace
scan_and_replace-IsUnsafe c cs u =
    rw (scan_and_replace, scan_from-IsUnsafe c cs u) (ap some (finish-unsafe c cs))
