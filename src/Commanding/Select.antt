-- ===== src/Commanding/Select.antt =====
-- static/addons/commanding/command-input.js: finding, choosing and checking a command.
pub mod Found
use fprime_gds.Commanding.{Value, assign_argument, clear_argument, Text, List, Option, Bool}
use fprime_gds.Validate.{Argument, find_case_insensitive}
use fprime_gds.Base.Text.{Text, includes, is_prefix, codes}
use fprime_gds.Base.{List, Option, ◌∷◌, none, some, [], if◌then◌else◌, ◌>>=◌}
use fprime_gds.Base.Store.{set_key, find_key}

pub record Command : Type 0 where
  pub full_name : Text
  pub args : List Argument
  pub error : Text

-- _datastore.commands, by name.
abbrev pub Commands : Type 0
Commands = List (Text × Command)

unfoldable pub names_of : Commands → List Text
names_of [] = []
names_of ((k, c) ∷ cs) = k ∷ names_of cs

-- command_name.split(".") up to its last token
unfoldable pub last_token : Text → Text
last_token [] = []
last_token (c ∷ cs) = if includes (codes ".") (c ∷ cs) then last_token cs else c ∷ cs

-- The names whose last token starts with `partial`; the first of them.
first_partial : Text → List Text → Option Text
unfolding last_token
first_partial partial [] = none
first_partial partial (k ∷ ks) =
    if is_prefix partial (last_token k) then some k else first_partial partial ks

or_partial : Option Text → Option Text → List Text → Option Text
unfolding first_partial
or_partial (some name) partial names = some name
or_partial none none names = none
or_partial none (some partial) names = first_partial partial names

-- desired[i], `absent` behind the end
value_at : List Value → Value
value_at [] = fprime_gds.Commanding.absent
value_at (v ∷ vs) = v

rest_of : List Value → List Value
rest_of [] = []
rest_of (v ∷ vs) = vs

-- The loop over the arguments; `none` is an exception.
pub assign_args :
    (Argument → Value → Option Argument) → List Argument → List Value → Option (List Argument)
unfolding value_at rest_of
assign_args assign [] vs = some []
assign_args assign (a ∷ as1) vs =
    assign a (value_at vs) >>= λ b. assign_args assign as1 (rest_of vs) >>= λ bs. some (b ∷ bs)

module _ (lower : Text → Text) (assign : Argument → Value → Option Argument) where
  -- The command that is found, by its name in the store.
  pub find_command : Text → Option Text → Commands → Option Text
  unfolding names_of or_partial
  find_command desired partial commands =
      or_partial (find_case_insensitive lower (some desired) (names_of commands)) partial
        (names_of commands)

  assigned : Text → Option Command → List Value → Commands → Option (Option Text × Commands)
  unfolding set_key
  assigned name none vs commands = none
  assigned name (some c) vs commands = do
    bs ← assign_args assign c.args vs
    some (some name, set_key name (record c { args = bs }) commands)

  -- command_assignment_helper: the name of the command in the store, `none` for null, and the store.
  pub command_assignment_helper :
      Text → List Value → Option Text → Commands → Option (Option Text × Commands)
  unfolding assigned
  command_assignment_helper desired vs partial commands =
      elim (find_command desired partial commands) [
        | none ↦ some (none, commands)
        | some name ↦ assigned name (find_key name commands) vs commands
      ]
