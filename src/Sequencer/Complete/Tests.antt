-- ===== src/Sequencer/Complete/Tests.antt =====
-- A line of a sequence, as nodes of the editor, and what is offered in it.
use fprime_gds.Base.{refl, some, none, ◌≡◌, ◌∷◌, [], ℕ, Option, ◌<◌, suc, zero, List, arith}
use fprime_gds.Base.Text.{Text, codes}
use fprime_gds.Sequencer.Complete.{Arg, Offer, autocomplete, sibling_list, results}
use fprime_gds.Sequencer.Complete.Walk.{sibling_list-Walk, Listed, Walk}

-- The line is 0 and has the parts 1, 2 and so on; 3 is white.
line_parent : ℕ → Option ℕ
line_parent zero = none
line_parent (suc n) = some 0

line_prev : ℕ → Option ℕ
line_prev zero = none
line_prev (suc zero) = none
line_prev (suc (suc n)) = some (suc n)

line_name : ℕ → Text
line_name zero = codes "Line"
line_name (suc zero) = codes "TimeTag"
line_name (suc (suc zero)) = codes "Command"
line_name (suc (suc (suc zero))) = codes "Space"
line_name (suc (suc (suc (suc n)))) = codes "Arg"

line_up : (n m : ℕ) → line_parent n ≡ some m → m < n
unfolding line_parent
line_up zero m h = absurd cc
line_up (suc n) m h = ground arith

line_left : (n m : ℕ) → line_prev n ≡ some m → m < n
unfolding line_prev
line_left zero m h = absurd cc
line_left (suc zero) m h = absurd cc
line_left (suc (suc n)) m h = ground arith

abbrev token_types : List Text
token_types = codes "TimeTag" ∷ codes "Command" ∷ codes "Arg" ∷ []

siblings_of_last :
    sibling_list line_parent line_prev line_name token_types 5 5 ≡ some (4 ∷ 2 ∷ 1 ∷ [])
unfolding sibling_list line_parent line_prev line_name
siblings_of_last = refl

sibling_list-Walk_example :
    (cs : List ℕ) × (sibling_list line_parent line_prev line_name token_types 5 5 ≡ some cs)
    × Walk line_parent line_prev line_name token_types (some 4) cs
    × Listed line_parent line_prev line_name token_types (λ n. n) line_up line_left 5 cs
unfolding line_prev
sibling_list-Walk_example =
    sibling_list-Walk line_parent line_prev line_name token_types (λ n. n) line_up line_left 5

abbrev commands : List (Text × List Arg)
commands =
    (
      codes "C",
      record { type_name = codes "U8"; enum_dict = none }
          ∷ record { type_name = codes "E"; enum_dict = some (codes "ON" ∷ []) }
          ∷ [],
    )
    ∷ []

second_argument :
    autocomplete commands
      (codes "Arg")
      ((codes "Arg", codes "1") ∷ (codes "Command", codes "C") ∷ [])
    ≡ some (Offer.label (codes "ON") ∷ Offer.snippet (codes "${E_1}") (codes "$ARGS") ∷ [])
unfolding autocomplete results
second_argument = refl
