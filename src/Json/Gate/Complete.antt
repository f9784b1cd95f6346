-- ===== src/Json/Gate/Complete.antt =====
-- The gate misses nothing that the scan would replace.
use fprime_gds.Json.Scan.{
  ConversionType, replacement_for, scan_and_replace, match_gate_token, match_gate_tokens,
  gate_tokens,
}
use fprime_gds.Json.Gate.{
  may_contain_flag_object, preprocess, needs_preprocess, includes_token, has_replaceable_token,
  preprocess_decision, Decision,
}
use fprime_gds.Base.Text.{Text, codes, includes, is_prefix}
use fprime_gds.Json.Scan.Clean.{scan_and_replace_clean}
use fprime_gds.Json.Digits.Runs.{has_long_digit_run_exact}
use fprime_gds.Base.{
  ℕ, ◌≡◌, false, some, ◌≢◌, arith, drop, Bool-cases, none, suc, inl, ◌∷◌, inr, [], zero, Bool, true,
  Option-cases, refl,
}

-- A text that includes `t` nowhere does not have it at any index.
includes-drop : (t s : Text) (i : ℕ) → includes t s ≡ false → is_prefix t (drop i s) ≡ false
unfolding includes
includes-drop t [] zero h = h
includes-drop t [] (suc i) h = h
includes-drop t (c ∷ s) zero h = ground arith
includes-drop t (c ∷ s) (suc i) h = includes-drop t s i (ground arith)

match_gate_token-none :
    (s : Text) (i : ℕ) → includes_token gate_tokens s ≡ false → match_gate_token s i ≡ none
unfolding match_gate_token match_gate_tokens includes_token
match_gate_token-none s i h =
    ground (arith, includes-drop (codes "NaN") s i, includes-drop (codes "Infinity") s i)

-- Where the gate answers that no scan is needed, the scan returns the text as it is.
pub gate_complete : (s : Text) → needs_preprocess s ≡ some false → scan_and_replace s ≡ some s
unfolding needs_preprocess preprocess_decision has_replaceable_token
gate_complete s h = elim (Bool-cases (includes_token gate_tokens s)) [
  | inl found ↦ ground arith
  | inr clean ↦
      scan_and_replace_clean s (λ i. match_gate_token-none s i clean)
        (λ r. ground (arith, (has_long_digit_run_exact s).1.1 r))
]

needs_preprocess-total : (s : Text) → needs_preprocess s ≢ none
unfolding needs_preprocess preprocess_decision has_replaceable_token
needs_preprocess-total s = ground (arith, (has_long_digit_run_exact s).0)

-- The gate is an optimisation only: `preprocess` returns on every text what the scan returns.
pub preprocess-eq-scan_and_replace : (s : Text) → preprocess s ≡ scan_and_replace s
unfolding preprocess
preprocess-eq-scan_and_replace s = ground (arith, needs_preprocess-total s, gate_complete s)

abbrev pub with_flag : Decision
with_flag = record { may_contain_flag = true; needs_scan = true }

abbrev pub without_flag : Bool → Decision
without_flag b = record { may_contain_flag = false; needs_scan = b }

-- The decision on a text in which a flag object may stand.
pub preprocess_decision-flag :
    (s : Text) → may_contain_flag_object s ≡ true → preprocess_decision s ≡ some with_flag
unfolding preprocess_decision
preprocess_decision-flag s h = rw h refl

has_replaceable_token-total : (s : Text) → has_replaceable_token s ≢ none
unfolding has_replaceable_token
has_replaceable_token-total s = ground (arith, (has_long_digit_run_exact s).0)

-- The decision on another text: where it is against the scan, the scan changes nothing.
pub preprocess_decision-clear :
    (s : Text)
    → may_contain_flag_object s ≡ false
    → (b : Bool) × (preprocess_decision s ≡ some (without_flag b))
      × (b ≡ false → scan_and_replace s ≡ some s)
unfolding preprocess_decision needs_preprocess
preprocess_decision-clear s h = elim (Option-cases (has_replaceable_token s)) [
  | inl e ↦ absurd (has_replaceable_token-total s e)
  | inr (b, e) ↦ (b, rw (h, e) refl, λ k. gate_complete s (rw (h, e, k) refl))
]

-- The gate sees the flag objects of the scan.
pub may_contain_flag_object-replacement_for :
    (type : ConversionType) (token : Text)
    → may_contain_flag_object (replacement_for type token) ≡ true
unfolding may_contain_flag_object replacement_for includes
may_contain_flag_object-replacement_for type token = refl
