-- ===== src/Json/Parser/Gated.antt =====
-- static/js/json.js: parse with its gate against the parser that always scans and revives.
use mathlib.Core.Path.{subst}
use fprime_gds.Base.{
  ◌>>=◌, refl, true, inl, Option, ◌≡◌, false, some, Bool, Bool-cases, Option-cases, inr, ap, sym,
}
use fprime_gds.Json.Values.Flagless.{NoFlag, revive-NoFlag}
use fprime_gds.Json.Values.{JsonValue}
use fprime_gds.Json.Parser.{decided, parse_converted, parse, ℤ, Text, JsonValue, scan_and_replace}
use fprime_gds.Base.Int.{ℤ}
use fprime_gds.Base.Text.{Text, text_eq, text_eq_sound}
use fprime_gds.Json.Gate.{may_contain_flag_object}
use fprime_gds.Json.Scan.{scan_and_replace}
use fprime_gds.Json.Gate.Complete.{
  without_flag, preprocess_decision-flag, preprocess_decision-clear, with_flag,
}

module _ (show_nearest : ℤ → Text) (language_parse : Text → Option JsonValue) where
  -- The parser without its gate: it scans every text, and revives every value.
  unfoldable pub parse_always : Text → Option JsonValue
  unfolding parse_converted
  parse_always s = do t ← scan_and_replace s; parse_converted show_nearest language_parse true t

  module _
      (flags_only_where_seen : (s : Text) (v : JsonValue)
        → may_contain_flag_object s ≡ false
        → language_parse s ≡ some v
        → NoFlag v) where
    parse_converted-flagless :
        (s : Text) (b : Bool)
        → may_contain_flag_object s ≡ false
        → parse_converted show_nearest language_parse b s
          ≡ parse_converted show_nearest language_parse true s
    unfolding parse_converted
    parse_converted-flagless s true h = refl
    parse_converted-flagless s false h = elim (Option-cases (language_parse s)) [
      | inl e ↦ rw e refl
      | inr (v, e) ↦
          rw e (ap some (sym (revive-NoFlag show_nearest v (flags_only_where_seen s v h e))))
    ]

    -- What the gate is against scanning, or what the scan leaves as it is.
    parse_always-unchanged :
        (s : Text)
        → may_contain_flag_object s ≡ false
        → scan_and_replace s ≡ some s
        → parse_converted show_nearest language_parse false s ≡ parse_always s
    unfolding parse_always
    parse_always-unchanged s h e = rw e (parse_converted-flagless s false h)

    parse_converted-unchanged :
        (s t : Text)
        → may_contain_flag_object s ≡ false
        → t ≡ s
        → parse_converted show_nearest language_parse false t
          ≡ parse_converted show_nearest language_parse true t
    parse_converted-unchanged s t h e =
        subst
          (λ u.
            parse_converted show_nearest language_parse false u
            ≡ parse_converted show_nearest language_parse true u)
          (sym e) (parse_converted-flagless s false h)

    decided-flagless :
        (s : Text) (b : Bool)
        → may_contain_flag_object s ≡ false
        → (b ≡ false → scan_and_replace s ≡ some s)
        → decided show_nearest language_parse (without_flag b) s ≡ parse_always s
    unfolding decided parse_always
    decided-flagless s false h k = parse_always-unchanged s h (k refl)
    decided-flagless s true h k = elim (Option-cases (scan_and_replace s)) [
      | inl e ↦ rw (e) refl
      | inr (t, e) ↦ elim (Bool-cases (text_eq t s)) [
        | inl same ↦ rw (e, same) (parse_converted-unchanged s t h (text_eq_sound t s same))
        | inr changed ↦ rw (e, changed) refl
      ]
    ]

    decided-with_flag :
        (s : Text) → decided show_nearest language_parse with_flag s ≡ parse_always s
    unfolding decided parse_always
    decided-with_flag s = elim (Option-cases (scan_and_replace s)) [
      | inl e ↦ rw e refl
      | inr (t, e) ↦ elim (Bool-cases (text_eq t s)) [
        | inl same ↦ rw (e, same) refl
        | inr changed ↦ rw (e, changed) refl
      ]
    ]

    -- parse returns on every text what the parser without the gate returns, if a flag object stands
    -- only in what is parsed of a text in which the gate sees one.
    pub parse-eq-parse_always : (s : Text) → parse show_nearest language_parse s ≡ parse_always s
    unfolding parse
    parse-eq-parse_always s = elim (Bool-cases (may_contain_flag_object s)) [
      | inl flag ↦ rw (preprocess_decision-flag s flag) (decided-with_flag s)
      | inr clear ↦
          let (b, e, k) = preprocess_decision-clear s clear in rw e (decided-flagless s b clear k)
    ]
