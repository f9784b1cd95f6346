-- ===== src/Json/Scan/Progress.antt =====
-- The loops of the scanner go forward, so they end.
use fprime_gds.Base.{
  ℕ, zero, suc, ◌+◌, ◌≤◌, ◌<◌, ◌≡◌, refl, ◌≢◌, Bool, true, false, Option, none, some, arith, length,
  get_elem?, get_elem?-lt, Option-cases, inl, inr,
}
use fprime_gds.Base.Text.{Text}
use fprime_gds.Json.Scan.{
  number_units, scan_number_token, skip_string, Scan, GateToken, scan_number, gate_or_number,
  scan_step, scan_from, scan_and_replace, match_gate_token, match_gate_tokens, started,
}

number_units-ge : (f : ℕ) (s : Text) (i : ℕ) (b : Bool) → i ≤ (number_units f s i b).end
unfolding number_units
number_units-ge zero s i b = omega arith
number_units-ge (suc f) s i b =
    ground (arith, number_units-ge f s (i + 1) b, number_units-ge f s (i + 1) false)

skip_string-ge : (f : ℕ) (s : Text) (i : ℕ) → i ≤ skip_string f s i
unfolding skip_string
skip_string-ge zero s i = omega arith
skip_string-ge (suc f) s i = ground (arith, skip_string-ge f s (i + 2), skip_string-ge f s (i + 1))

scan_number-gt :
    (s : Text) (start i : ℕ) (st : Scan) → start ≤ i → start < (scan_number s start i st).0
unfolding scan_number scan_number_token
scan_number-gt s start i st h = ground (arith, number_units-ge (length s) s i true)

gate_or_number-gt :
    (o : Option GateToken) (s : Text) (start i : ℕ) (st : Scan)
    → start ≤ i
    → ((g : GateToken) → o ≡ some g → 0 < length g.token)
    → start < (gate_or_number o s start i st).0
unfolding gate_or_number
gate_or_number-gt none s start i st h l = scan_number-gt s start i st h
gate_or_number-gt (some g) s start i st h l = ground (arith, scan_number-gt s start i st, l g refl)

match_gate_token-pos :
    (s : Text) (i : ℕ) (g : GateToken) → match_gate_token s i ≡ some g → 0 < length g.token
unfolding match_gate_token match_gate_tokens
match_gate_token-pos s i g h = ground arith

pub scan_step-gt : (s : Text) (c i : ℕ) (st : Scan) → i < (scan_step s c i st).0
unfolding scan_step
scan_step-gt s c i st = ground (
  arith,
  skip_string-ge (length s) s (i + 1),
  gate_or_number-gt (match_gate_token s i) s i i st (omega arith) (match_gate_token-pos s i),
  gate_or_number-gt (match_gate_token s (i + 1)) s i (i + 1) st (omega arith)
      (match_gate_token-pos s (i + 1)),
)

scan_from-total :
    (f : ℕ) (s : Text) (i : ℕ) (st : Scan) → length s < i + f → 0 < f → scan_from f s i st ≢ none
unfolding scan_from
scan_from-total zero s i st h p = absurd (omega arith)
scan_from-total (suc f) s i st h p = elim (Option-cases (get_elem? s i)) [
  | inl e ↦ ground arith
  | inr (c, e) ↦ ground (
    arith,
    get_elem?-lt s i e,
    scan_step-gt s c i st,
    scan_from-total f s (scan_step s c i st).0 (scan_step s c i st).1,
  )
]

-- The pass ends on every text.
pub scan_and_replace-total : (s : Text) → scan_and_replace s ≢ none
unfolding scan_and_replace
scan_and_replace-total s =
    ground (arith, scan_from-total (length s + 1) s 0 started (omega arith) (omega arith))

pub scan_number_token-ge : (s : Text) (i : ℕ) → i ≤ (scan_number_token s i).end
unfolding scan_number_token
scan_number_token-ge s i = number_units-ge (length s) s i true
