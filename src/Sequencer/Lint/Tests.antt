-- ===== src/Sequencer/Lint/Tests.antt =====
-- Diagnostics of errors with and without the number of a line.
use fprime_gds.Base.{refl, some, none, ◌≡◌, ◌∷◌, [], ℕ, Option, if◌then◌else◌, ◌==◌}
use fprime_gds.Base.Text.{codes}
use fprime_gds.Sequencer.Lint.{
  process_response, diagnostics_of, build_diagnostic, located, find_line, split_lines,
  trimmed_lines,
}

-- An editor with one line, from 0 to 9.
one_line : ℕ → Option (ℕ × ℕ)
one_line n = if n == 1 then some (0, 9) else none

two_errors :
    process_response one_line (codes "Line  1: bad\r\n\n stop")
    ≡ some (
        record { message = codes "Line  1: bad"; from_unit = 0; to_unit = 9 }
        ∷ record { message = codes "stop"; from_unit = 0; to_unit = 0 }
        ∷ [])
unfolding process_response one_line diagnostics_of build_diagnostic located find_line split_lines
    trimmed_lines
two_errors = refl

-- The editor throws on a line that it does not have, and no error at all is shown.
past_the_end : process_response one_line (codes "Line 2: end") ≡ none
unfolding process_response one_line
past_the_end = refl
