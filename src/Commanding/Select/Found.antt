-- ===== src/Commanding/Select/Found.antt =====
-- static/addons/commanding/command-input.js: a command that is in the store is found by its name.
use fprime_gds.Base.{◌>>=◌, refl, inl, inr, some, ◌∷◌, [], ◌≡◌, List, Option, Bool-cases, sym}
use fprime_gds.Base.Text.{Text, text_eq, text_eq_sound}
use fprime_gds.Base.Store.{find_key, set_key}
use fprime_gds.Validate.{Argument}
use fprime_gds.Validate.Names.{OneOf, find_case_insensitive_exact}
use fprime_gds.Commanding.{Value}
use fprime_gds.Commanding.Select.{
  Command, Commands, names_of, or_partial, find_command, assigned, assign_args,
  command_assignment_helper,
}

names_of-OneOf :
    (k : Text) (c : Command) (commands : Commands)
    → find_key k commands ≡ some c
    → OneOf k (names_of commands)
unfolding find_key names_of
names_of-OneOf k c [] h = absurd cc
names_of-OneOf k c ((j, d) ∷ commands) h = elim (Bool-cases (text_eq j k)) [
  | inl e ↦ inl (sym (text_eq_sound j k e))
  | inr e ↦ inr (names_of-OneOf k c commands (rw e at h))
]

module _ (lower : Text → Text) (assign : Argument → Value → Option Argument) where
  find_command-stored :
      (k : Text) (c : Command) (partial : Option Text) (commands : Commands)
      → find_key k commands ≡ some c
      → find_command lower assign k partial commands ≡ some k
  unfolding find_command or_partial
  find_command-stored k c partial commands h =
      rw
        ((find_case_insensitive_exact lower k (names_of commands)).0
          (names_of-OneOf k c commands h))
        refl

  pub command_assignment_helper-stored :
      (k : Text) (c : Command) (vs : List Value) (partial : Option Text) (commands : Commands)
      → find_key k commands ≡ some c
      → command_assignment_helper lower assign k vs partial commands ≡ (
          assign_args assign c.args vs >>= λ bs.
          some (some k, set_key k (record c { args = bs }) commands))
  unfolding command_assignment_helper assigned
  command_assignment_helper-stored k c vs partial commands h =
      rw (command_assignment_helper, find_command-stored k c partial commands h)
        (rw (assigned, h) refl)
