-- ===== src/Commanding/History.antt =====
-- static/addons/commanding/command-history.js: the rows of the commands that were sent, and the click
-- that puts one back into the form.
mod Tests
pub mod Clicked
use fprime_gds.Base.{◌>>=◌, some, [], ◌∷◌, ◌++◌, List, ℕ, Option}
use fprime_gds.Base.Text.{Text, codes}
use fprime_gds.Base.Decimal.{show_ℕ}
use fprime_gds.Base.Store.{find_key}
use fprime_gds.Validate.{Argument}
use fprime_gds.Commanding.{Value}
use fprime_gds.Commanding.Display.{command_display_string}
use fprime_gds.Commanding.Select.{Commands, assign_args}
use fprime_gds.Commanding.Form.{Form, select_cmd}

-- A command of the history, with the values that were sent.
pub record SentCommand : Type 0 where
  pub id : ℕ
  pub seconds : ℕ
  pub microseconds : ℕ
  pub args : List Value

-- keyify
pub keyify : SentCommand → Text
unfolding show_ℕ
keyify c =
    codes "cmd-"
    ++ (show_ℕ c.id ++ (codes "-" ++ (show_ℕ c.seconds ++ (codes "-" ++ show_ℕ c.microseconds))))

-- `by_id` are the commands of the dictionary by the text of their id.
module _ (by_id : Commands) (assign : Argument → Value → Option Argument) where
  -- columnify, with the time printed; `none` is an exception: there is no such command, or a value
  -- does not fit. The copy of the command keeps the dictionary as it is.
  pub columnify :
      (Argument → Option Value)
      → (Value → Option Text)
      → ℕ
      → Text
      → SentCommand
      → Option (List Text)
  unfolding find_key show_ℕ
  columnify squash show fuel time c = do
    template ← find_key (show_ℕ c.id) by_id
    args ← assign_args assign template.args c.args
    some (time ∷ command_display_string squash show fuel template.full_name args ∷ [])

  -- clickAction inside a command-input, with the store of the form.
  pub click_action : (Text → Text) → SentCommand → Form → Commands → Option (Form × Commands)
  unfolding find_key show_ℕ
  click_action lower c f commands = do
    template ← find_key (show_ℕ c.id) by_id
    select_cmd lower assign template.full_name c.args f commands
