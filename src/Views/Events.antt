-- ===== src/Views/Events.antt =====
-- static/js/vue-support/event.js: the columns and the style of an event.
mod Tests
use fprime_gds.Base.{
  ◌>>=◌, none, some, [], ◌∷◌, ◌++◌, List, ℕ, Option, Bool, if◌then◌else◌, ◌&&◌, ◌||◌, leb, drop,
}
use fprime_gds.Base.Text.{Text, codes, text_eq, is_prefix}
use fprime_gds.Base.Decimal.{show_ℕ, digits_value}
use fprime_gds.Base.Store.{find_key}
use fprime_gds.Views.Printed.{format_hex_id}

-- An event of the store, with its time printed; `severity` is severity.value of the dictionary.
pub record Event : Type 0 where
  pub id : ℕ
  pub seconds : ℕ
  pub microseconds : ℕ
  pub incremental_id : ℕ
  pub display_text : Text

is_hex : ℕ → Bool
is_hex c = (leb b'0' c && leb c b'9') || (leb b'a' c && leb c b'f') || (leb b'A' c && leb c b'F')

-- The units of [0-9a-fA-F]+ at the head of a text, and what follows.
hex_at_head : Text → Text × Text
unfolding is_hex
hex_at_head [] = ([], [])
hex_at_head (c ∷ cs) =
    let (more, rest) = hex_at_head cs in if is_hex c then (c ∷ more, rest) else ([], c ∷ cs)

-- OPREG at the head of a text: the digits of its group, and what follows.
opcode_at_head : Text → Option (Text × Text)
unfolding hex_at_head is_prefix
opcode_at_head t =
    if is_prefix (codes "Opcode 0x") t
    then (let (digits, rest) = hex_at_head (drop 9 t) in
        elim digits [ [] ↦ none | d ∷ ds ↦ some (d ∷ ds, rest) ])
    else none

-- The first match of OPREG: what stands before it, its digits, and what follows.
pub find_opcode : Text → Option (Text × (Text × Text))
unfolding opcode_at_head
find_opcode [] = none
find_opcode (c ∷ cs) = elim (opcode_at_head (c ∷ cs)) [
  | none ↦ (do r ← find_opcode cs; some (c ∷ r.0, r.1))
  | some m ↦ some ([], m)
]

-- (commands_by_id[id] || {}).full_name || "UNKNOWN", of an opcode that a number holds exactly.
mnemonic_of : List (Text × Text) → Option ℕ → Text
unfolding find_key show_ℕ
mnemonic_of commands none = codes "UNKNOWN"
mnemonic_of commands (some id) = elim (find_key (show_ℕ id) commands) [
  | none ↦ codes "UNKNOWN"
  | some [] ↦ codes "UNKNOWN"
  | some (c ∷ cs) ↦ c ∷ cs
]

opcode_span : List (Text × Text) → Text → Text
unfolding mnemonic_of digits_value
opcode_span commands digits =
    codes "<span title=\"Opcode 0x"
    ++ (digits
        ++ (codes "\">" ++ (mnemonic_of commands (digits_value 16 0 digits) ++ codes "</span>")))

-- The text of a command event, with the name of the command for the first opcode in it.
pub remap_opcode : List (Text × Text) → Text → Text
unfolding find_opcode opcode_span
remap_opcode commands text = elim (find_opcode text) [
  | none ↦ text
  | some (before, (digits, after)) ↦ before ++ (opcode_span commands digits ++ after)
]

-- severity.value.replace("EventSeverity.", "")
severity_name : Text → Text
unfolding is_prefix
severity_name [] = []
severity_name (c ∷ cs) =
    if is_prefix (codes "EventSeverity.") (c ∷ cs) then drop 14 (c ∷ cs) else c ∷ severity_name cs

-- columnify, with the time printed; `commands` are the full names by id.
pub columnify : List (Text × Text) → Text → Text → Text → Event → List Text
unfolding remap_opcode severity_name text_eq
columnify commands time full_name severity e =
    time
    ∷ format_hex_id (some e.id)
    ∷ full_name
    ∷ severity_name severity
    ∷ (if text_eq severity (codes "EventSeverity.COMMAND")
        then remap_opcode commands e.display_text
        else e.display_text)
    ∷ []

-- The table of `style`.
abbrev severity_styles : List (Text × Text)
severity_styles =
    (codes "EventSeverity.FATAL", codes "fp-color-fatal")
    ∷ (codes "EventSeverity.WARNING_HI", codes "fp-color-warn-hi")
    ∷ (codes "EventSeverity.WARNING_LO", codes "fp-color-warn-lo")
    ∷ (codes "EventSeverity.ACTIVITY_HI", codes "fp-color-act-hi")
    ∷ (codes "EventSeverity.ACTIVITY_LO", codes "fp-color-act-lo")
    ∷ (codes "EventSeverity.COMMAND", codes "fp-color-command")
    ∷ (codes "EventSeverity.DIAGNOSTIC", [])
    ∷ []

-- style, `none` for undefined.
pub style : Text → Option Text
unfolding find_key
style severity = find_key severity severity_styles

pub keyify : Event → Text
unfolding show_ℕ
keyify e =
    codes "evt-"
    ++ (show_ℕ e.id
        ++ (codes "-"
            ++ (show_ℕ e.seconds
                ++ (codes "-"
                    ++ (show_ℕ e.microseconds ++ (codes "-" ++ show_ℕ e.incremental_id))))))
