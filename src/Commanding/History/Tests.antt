-- ===== src/Commanding/History/Tests.antt =====
-- A row of the history, and a click on it.
use fprime_gds.Base.{refl, some, none, ◌≡◌, ◌∷◌, [], ◌>>=◌, false}
use fprime_gds.Base.Text.{codes}
use fprime_gds.Base.Int.{pos}
use fprime_gds.Validate.{scalar, ScalarType}
use fprime_gds.Commanding.{number, assign_argument}
use fprime_gds.Commanding.Select.{Command, Commands}
use fprime_gds.Commanding.History.Clicked.{columnify-click_action, row_of_form}
use fprime_gds.Commanding.Form.{Form, stored}
use fprime_gds.Base.Decimal.{show_ℕ}
use fprime_gds.Base.Store.{find_key}
use fprime_gds.Commanding.History.{click_action, SentCommand, columnify, keyify}

abbrev byte : ScalarType
byte = record { name = codes "U8Type"; enum_dict = none; max_length = none }

abbrev by_id : Commands
by_id =
    (codes "7", record { full_name = codes "A.GO"; args = scalar byte none [] ∷ []; error = [] })
    ∷ []

abbrev sent_once : SentCommand
sent_once = record { id = 7; seconds = 1; microseconds = 2; args = number (some (pos 5)) ∷ [] }

unknown : SentCommand
unknown = record { id = 8; seconds = 1; microseconds = 2; args = [] }

key : keyify sent_once ≡ codes "cmd-7-1-2"
unfolding keyify
key = refl

-- A command that the dictionary does not have is an exception.
unknown_is_exception :
    columnify by_id (assign_argument (λ t. t) 2) (λ a. none) (λ v. none) 2 (codes "now") unknown
    ≡ none
unfolding columnify unknown
unknown_is_exception = refl

abbrev empty_form : Form
empty_form = record { selected = stored (codes "A.STOP"); active = false; error = [] }

abbrev go : Command
go = record { full_name = codes "A.GO"; args = scalar byte none [] ∷ []; error = [] }

abbrev store : Commands
store = (codes "A.GO", go) ∷ []

columnify-click_action_example :
    columnify by_id (assign_argument (λ t. t) 2) (λ a. none) (λ v. none) 2 (codes "now") sent_once
    ≡ (click_action by_id (assign_argument (λ t. t) 2) (λ t. t) sent_once empty_form store
        >>= row_of_form by_id
            (assign_argument (λ t. t) 2)
            (λ t. t)
            (λ a. none)
            (λ v. none)
            2
            (codes "now"))
unfolding show_ℕ find_key
columnify-click_action_example =
    columnify-click_action by_id (assign_argument (λ t. t) 2) (λ t. t) (λ a. none) (λ v. none) 2
      (codes "now") sent_once go empty_form store refl refl
