-- ===== src/Commanding/History/Clicked.antt =====
-- static/addons/commanding/command-history.js: what a click puts into the form is what the row shows.
use fprime_gds.Base.{◌>>=◌, refl, inl, inr, some, none, ◌∷◌, [], ◌≡◌, List, ℕ, Option, Option-cases}
use fprime_gds.Base.Text.{Text}
use fprime_gds.Base.Decimal.{show_ℕ}
use fprime_gds.Base.Store.{find_key, find_key-set_key_self}
use fprime_gds.Validate.{Argument}
use fprime_gds.Commanding.{Value}
use fprime_gds.Commanding.Display.{command_display_string}
use fprime_gds.Commanding.Select.{Command, Commands, assign_args}
use fprime_gds.Commanding.Select.Found.{command_assignment_helper-stored}
use fprime_gds.Commanding.Form.{Form, selected_command, select_cmd}
use fprime_gds.Commanding.History.{SentCommand, columnify, click_action}

module _ (by_id : Commands) (assign : Argument → Value → Option Argument) (lower : Text → Text)
    (squash : Argument → Option Value) (show : Value → Option Text) (fuel : ℕ) (time : Text) where
  -- A row with the command that the form has.
  unfoldable pub row_of_form : Form × Commands → Option (List Text)
  unfolding selected_command
  row_of_form (f, commands) = do
    d ← selected_command f.selected commands
    some (time ∷ command_display_string squash show fuel d.full_name d.args ∷ [])

  -- A click on a command that the store has under its name puts that command into the form with the
  -- arguments that the row shows, and is an exception where the row is.
  pub columnify-click_action :
      (c : SentCommand) (template : Command) (f : Form) (commands : Commands)
      → find_key (show_ℕ c.id) by_id ≡ some template
      → find_key template.full_name commands ≡ some template
      → columnify by_id assign squash show fuel time c
        ≡ (click_action by_id assign lower c f commands >>= row_of_form)
  unfolding columnify click_action select_cmd row_of_form
  columnify-click_action c template f commands h s =
      let found =
        command_assignment_helper-stored lower assign template.full_name template c.args none
          commands s in
      elim (Option-cases (assign_args assign template.args c.args)) [
        | inl e ↦ rw h (rw (e, found) (rw e refl))
        | inr (bs, e) ↦ rw h (
            rw (e, found)
              (rw
                (
                  e,
                  row_of_form,
                  find_key-set_key_self template.full_name (record template { args = bs }) commands,
                )
                refl))
      ]
