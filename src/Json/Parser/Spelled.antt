-- ===== src/Json/Parser/Spelled.antt =====
-- static/js/json.js: parse with its gate, where JSON.parse makes keys only of what the text writes.
use fprime_gds.Base.{Option, ◌≡◌, some, false, ◌⊎◌, inl, inr}
use fprime_gds.Json.Values.Flagless.{NoFlag}
use fprime_gds.Json.Values.{JsonValue}
use fprime_gds.Json.Parser.{parse, ℤ, Text}
use fprime_gds.Json.Parser.Gated.{parse_always, parse-eq-parse_always}
use fprime_gds.Json.Gate.{may_contain_flag_object}
use fprime_gds.Json.Gate.Spelled.{WritesKey, WritesKey-may_contain_flag_object}
use fprime_gds.Base.Int.{ℤ}
use fprime_gds.Base.Text.{Text}

module _ (show_nearest : ℤ → Text) (language_parse : Text → Option JsonValue) where
  -- Where JSON.parse gives no object with the key of flag objects, unless its text writes that key unit
  -- by unit, each as itself or by its \u escape, parse returns on every text what it returns without its
  -- gate, when it scans every text and revives every value.
  pub parse-ungated :
      ((s : Text) (v : JsonValue) → language_parse s ≡ some v → NoFlag v ⊎ WritesKey s)
      → (s : Text)
      → parse show_nearest language_parse s ≡ parse_always show_nearest language_parse s
  parse-ungated keys s = parse-eq-parse_always show_nearest language_parse unseen s
    where
      unseen :
          (s : Text) (v : JsonValue)
          → may_contain_flag_object s ≡ false
          → language_parse s ≡ some v
          → NoFlag v
      unseen s v h e = elim (keys s v e) [
        | inl none_there ↦ none_there
        | inr written ↦ let seen = WritesKey-may_contain_flag_object written in absurd cc
      ]
