-- ===== src/Sequencer/Lint.antt =====
-- static/addons/sequencer/lint.js: the diagnostics of the editor, one for each line of an error.
mod Tests
use fprime_gds.Base.{
  ◌&&◌, ◌>>=◌, none, some, [], ◌∷◌, ◌++◌, List, ℕ, suc, Option, Bool, if◌then◌else◌, true, false,
  ◌||◌, ◌==◌, drop, length,
}
use fprime_gds.Base.Text.{Text, codes, is_prefix}
use fprime_gds.Base.Decimal.{trim, trim_start, digits_value}
use fprime_gds.Json.Digits.{is_digit}

-- The source is LINT_SRC and the severity "error" in each of them.
pub record Diagnostic : Type 0 where
  pub message : Text
  pub from_unit : ℕ
  pub to_unit : ℕ

-- A line feed stands at the head.
starts_line : Text → Bool
starts_line [] = false
starts_line (c ∷ cs) = c == 10

-- errors.split(/\r?\n/)
pub split_lines : Text → List Text
unfolding starts_line
split_lines [] = [] ∷ []
split_lines (c ∷ cs) =
    let parts = split_lines cs in
    if c == 10
    then [] ∷ parts
    else if c == 13 && starts_line cs
    then parts
    else elim parts [ [] ↦ (c ∷ []) ∷ [] | p ∷ ps ↦ (c ∷ p) ∷ ps ]

-- lines.map(trim).filter(line => line !== "")
pub trimmed_lines : List Text → List Text
unfolding trim
trimmed_lines [] = []
trimmed_lines (l ∷ ls) =
    let rest = trimmed_lines ls in elim (trim l) [ [] ↦ rest | c ∷ cs ↦ (c ∷ cs) ∷ rest ]

-- The digits at the head of a text, and what follows.
number_at_head : Text → Text × Text
unfolding is_digit
number_at_head [] = ([], [])
number_at_head (c ∷ cs) =
    let (more, rest) = number_at_head cs in if is_digit c then (c ∷ more, rest) else ([], c ∷ cs)

-- LINE_REG at the head of a text: the number of its group.
line_at_head : Text → Option ℕ
unfolding is_prefix trim_start number_at_head digits_value
line_at_head t =
    if is_prefix (codes "Line") t
    then (let (digits, rest) = number_at_head (trim_start (drop 4 t)) in
        elim digits [
          | [] ↦ none
          | d ∷ ds ↦ if is_prefix (codes ":") rest then digits_value 10 0 (d ∷ ds) else none
        ])
    else none

-- line.match(LINE_REG)
pub find_line : Text → Option ℕ
unfolding line_at_head
find_line [] = none
find_line (c ∷ cs) = elim (line_at_head (c ∷ cs)) [ none ↦ find_line cs | some n ↦ some n ]

-- view.state.doc.line(n), `none` where the editor throws as it has no such line.
module _ (doc_line : ℕ → Option (ℕ × ℕ)) where
  located : Text → Option ℕ → Option Diagnostic
  located line none = some (record { message = line; from_unit = 0; to_unit = 0 })
  located line (some n) = do
    range ← doc_line n
    some (record { message = line; from_unit = range.0; to_unit = range.1 })

  pub build_diagnostic : Text → Option Diagnostic
  unfolding located find_line
  build_diagnostic line = located line (find_line line)

  pub diagnostics_of : List Text → Option (List Diagnostic)
  unfolding build_diagnostic
  diagnostics_of [] = some []
  diagnostics_of (l ∷ ls) = do d ← build_diagnostic l; ds ← diagnostics_of ls; some (d ∷ ds)

  -- processResponse; `errors` is message.error || "".
  pub process_response : Text → Option (List Diagnostic)
  unfolding diagnostics_of split_lines trimmed_lines
  process_response errors = diagnostics_of (trimmed_lines (split_lines errors))
