-- ===== src/Commanding/Form.antt =====
-- static/addons/commanding/command-input.js: the form of a command, its validation and sending.
pub mod Sending
use fprime_gds.Commanding.{Value, Text, Bool, Option, List}
use fprime_gds.Commanding.Select.{Command, Commands, command_assignment_helper, names_of}
use fprime_gds.Validate.{Argument, scalar, compound, find_case_insensitive, Verdict, is_passed}
use fprime_gds.Base.Text.{Text, codes}
use fprime_gds.Base.{
  Bool, Option, map, List, some, [], ◌∷◌, ◌++◌, true, false, none, ◌>>=◌, ◌&&◌, if◌then◌else◌,
}
use fprime_gds.Base.Store.{find_key, set_key}

-- The selected command is one of the store, which the form shares with it, or a command of its own.
pub data Selection : Type 0 where
  stored : Text → Selection
  invalid : Command → Selection

pub record Form : Type 0 where
  pub selected : Selection
  pub active : Bool
  pub error : Text

unfoldable pub selected_command : Selection → Commands → Option Command
unfolding find_key
selected_command (stored k) commands = find_key k commands
selected_command (invalid c) commands = some c

-- The selected command changes, where it is kept.
change_command : (Command → Command) → Form → Commands → Form × Commands
unfolding find_key set_key
change_command g f commands = elim f.selected [
  | invalid c ↦ (record f { selected = invalid (g c) }, commands)
  | stored k ↦ elim (find_key k commands) [
    | none ↦ (f, commands)
    | some c ↦ (f, set_key k (g c) commands)
  ]
]

module _ (lower : Text → Text) (assign : Argument → Value → Option Argument) where
  -- selectCmd, up to the validation.
  unfoldable pub select_cmd : Text → List Value → Form → Commands → Option (Form × Commands)
  select_cmd desired vs f commands = do
    r ← command_assignment_helper lower assign desired vs none commands
    let chosen : Command = record {
      full_name = desired;
      args = [];
      error = codes "Invalid command";
    }
    some (record f { selected = elim r.0 [ some k ↦ stored k | none ↦ invalid chosen ] }, r.1)

-- The loop of clearArguments.
pub clear_args : (Argument → Option Argument) → List Argument → Option (List Argument)
clear_args clear [] = some []
clear_args clear (a ∷ rest) = clear a >>= λ b. clear_args clear rest >>= λ bs. some (b ∷ bs)

pub clear_arguments : (Argument → Option Argument) → Form → Commands → Option (Form × Commands)
unfolding clear_args selected_command change_command
clear_arguments clear f commands = do
  c ← selected_command f.selected commands
  bs ← clear_args clear c.args
  some (change_command (λ d. record d { args = bs }) f commands)

-- valid_children: every argument is validated, the last one first, and all must pass.
unfoldable pub validate_args :
    (Argument → Option (Verdict × Argument)) → List Argument → Option (Bool × List Argument)
validate_args validate [] = some (true, [])
validate_args validate (a ∷ rest) =
    validate_args validate rest >>= λ r. validate a >>= λ v. some (is_passed v.0 && r.0, v.1 ∷ r.1)

-- The command of the store is taken, or the form has the error.
checked_name : Text → Option Text → Form → Form
checked_name name none f = record f { error = name ++ codes " is not a command." }
checked_name name (some k) f = record f { selected = stored k; error = [] }

module _ (lower : Text → Text) (validate : Argument → Option (Verdict × Argument)) where
  -- validate; `form_valid` is the browser's checkValidity. The children show the arguments of the
  -- command that was selected before.
  unfoldable pub validate_form : Bool → Form → Commands → Option (Bool × Form × Commands)
  unfolding validate_args checked_name change_command selected_command
  validate_form form_valid f commands = do
    c ← selected_command f.selected commands
    r ← validate_args validate c.args
    let (g, changed) = change_command (λ d. record d { args = r.1 }) f commands
    let k = find_case_insensitive lower (some c.full_name) (names_of commands)
    some (r.0 && form_valid, checked_name c.full_name k g, changed)

-- What is sent: the address and the arguments.
pub record Request : Type 0 where
  pub address : Text
  pub arguments : List Value

-- command.args.map(serialize_arg)
serialize_args : (Argument → Option Value) → List Argument → Option (List Value)
serialize_args serialize [] = some []
serialize_args serialize (a ∷ rest) =
    serialize a >>= λ v. serialize_args serialize rest >>= λ vs. some (v ∷ vs)

module _ (lower : Text → Text) (validate : Argument → Option (Verdict × Argument))
    (serialize : Argument → Option Value) where
  -- What sendCommand does behind a validation that passed.
  sent : Form → Commands → Option (Form × Commands × Option Request)
  unfolding serialize_args selected_command
  sent f commands = do
    c ← selected_command f.selected commands
    vs ← serialize_args serialize c.args
    some (
      record f { active = true },
      commands,
      some (record { address = codes "/commands/" ++ c.full_name; arguments = vs }),
    )

  -- sendCommand, up to the answer.
  unfoldable pub send_command : Bool → Form → Commands → Option (Form × Commands × Option Request)
  unfolding validate_form sent
  send_command form_valid f commands = do
    r ← validate_form lower validate form_valid f commands
    (if r.0 then sent r.1 r.2 else some (r.1, r.2, none))

set_error : Text → Argument → Argument
set_error e (scalar t value error) = scalar t value e
set_error e (compound t fs error) = compound t fs e

-- The command that was captured when it was sent changes: in the store, or, where it is a command of
-- its own, in the form, as long as the form still shows that object (`shown`).
change_captured : (Command → Command) → Selection → Bool → Form → Commands → Form × Commands
unfolding find_key set_key
change_captured g (invalid c) shown f commands =
    (if shown then record f { selected = invalid (g c) } else f, commands)
change_captured g (stored k) shown f commands = elim (find_key k commands) [
  | none ↦ (f, commands)
  | some c ↦ (f, set_key k (g c) commands)
]

-- .then(…), for the captured command
pub command_sent : Selection → Bool → Form → Commands → Form × Commands
unfolding change_captured set_error
command_sent captured shown f commands =
    change_captured (λ d. record d { args = map (set_error []) d.args }) captured shown
      (record f { active = false }) commands

-- command.args[j].error = argument_errors[j]; `none` for an error without an argument.
pub set_errors : List Text → List Argument → Option (List Argument)
unfolding set_error
set_errors [] args = some args
set_errors (e ∷ es) [] = none
set_errors (e ∷ es) (a ∷ args) = set_errors es args >>= λ bs. some (set_error e a ∷ bs)

-- An error of the answer: its message, without "400 Bad Request:", and those of the arguments.
pub record Refusal : Type 0 where
  pub message : Text
  pub argument_errors : List Text

pub refuse_args : List Refusal → List Argument → Option (List Argument)
unfolding set_errors
refuse_args [] args = some args
refuse_args (e ∷ es) args = set_errors e.argument_errors args >>= λ bs. refuse_args es bs

unfoldable pub last_message : List Refusal → Text → Text
last_message [] before = before
last_message (e ∷ es) before = last_message es e.message

-- .catch(…) on the errors of the answer, for the captured command; `none` is an exception in it.
pub command_refused : List Refusal → Selection → Bool → Form → Commands → Option (Form × Commands)
unfolding refuse_args last_message change_captured selected_command
command_refused es captured shown f commands = do
  c ← selected_command captured commands
  bs ← refuse_args es c.args
  let (g, changed) =
      change_captured (λ d. record d { args = bs; error = last_message es d.error }) captured shown
        f commands
  some (record g { active = false; error = last_message es g.error }, changed)
