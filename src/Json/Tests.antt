-- ===== src/Json/Tests.antt =====
-- The functions of json.js on concrete texts.
use fprime_gds.Base.{refl, ◌≡◌, ◌≢◌, none, some, false, true, ◌↔◌}
use fprime_gds.Base.Text.{Text, codes, is_prefix, includes}
use fprime_gds.Json.Scan.{scan_and_replace, scan_step, replacement_for}
use fprime_gds.Json.Gate.{needs_preprocess, preprocess}
use fprime_gds.Json.Digits.{has_long_digit_run}
use fprime_gds.Json.Gate.Complete.{preprocess-eq-scan_and_replace}
use fprime_gds.Json.Scan.Progress.{scan_and_replace-total}
use fprime_gds.Json.Digits.Runs.{LongRun, has_long_digit_run_exact}

-- A response with each kind of token, and with tokens inside a text.
abbrev response : Text
response = codes "{\"a\": [NaN, -Infinity, 9007199254740993], \"NaN\": \"\\\"Infinity\"}"

abbrev replaced : Text
replaced =
    codes
      "{\"a\": [{\"fprime{replacement\":\"NAN\",\"value\":\"NaN\"}, {\"fprime{replacement\":\"INFINITY\",\"value\":\"-Infinity\"}, {\"fprime{replacement\":\"NUMBER\",\"value\":\"9007199254740993\"}], \"NaN\": \"\\\"Infinity\"}"

scan_response : scan_and_replace response ≡ some replaced
unfolding scan_and_replace scan_step replacement_for
scan_response = refl

largest_safe :
    scan_and_replace (codes "[9007199254740991, -9007199254740991, 1e99, 0.5]")
    ≡ some (codes "[9007199254740991, -9007199254740991, 1e99, 0.5]")
unfolding scan_and_replace scan_step replacement_for
largest_safe = refl

smallest_unsafe :
    scan_and_replace (codes "-9007199254740992")
    ≡ some (codes "{\"fprime{replacement\":\"NUMBER\",\"value\":\"-9007199254740992\"}")
unfolding scan_and_replace scan_step replacement_for
smallest_unsafe = refl

-- The decision is made without a scan, or with one, for each reason.
gate_reasons :
    (needs_preprocess (codes "[1, 2.5, null]") ≡ some false)
    × (needs_preprocess (codes "[NaN]") ≡ some true)
    × (needs_preprocess (codes "[1234567890123456]") ≡ some true)
    × (needs_preprocess (codes "{\"fprime{replacement\": 1}") ≡ some true)
    × (needs_preprocess (codes "{\"fprime\\u007Breplacement\": 1}") ≡ some true)
unfolding needs_preprocess is_prefix includes has_long_digit_run
gate_reasons = (refl, refl, refl, refl, refl)

sixteen_digits : has_long_digit_run (codes "ab1234567890123456") ≡ some true
unfolding has_long_digit_run
sixteen_digits = refl

fifteen_digits : has_long_digit_run (codes "ab123456789012345 12") ≡ some false
unfolding has_long_digit_run
fifteen_digits = refl

preprocess-eq-scan_and_replace_example : preprocess response ≡ scan_and_replace response
preprocess-eq-scan_and_replace_example = preprocess-eq-scan_and_replace response

has_long_digit_run_exact_example :
    (has_long_digit_run (codes "ab1234567890123456") ≢ none)
    × ((has_long_digit_run (codes "ab1234567890123456") ≡ some true)
        ↔ LongRun (codes "ab1234567890123456"))
has_long_digit_run_exact_example = has_long_digit_run_exact (codes "ab1234567890123456")

scan_and_replace-total_example : scan_and_replace response ≢ none
scan_and_replace-total_example = scan_and_replace-total response
