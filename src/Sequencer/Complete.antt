-- ===== src/Sequencer/Complete.antt =====
-- static/addons/sequencer/autocomplete.js: what the editor offers, from the node that is edited and the
-- nodes to its left. The nodes are the editor's; `parent`, `prev` and `name` read them.
mod Tests
pub mod Walk
use fprime_gds.Base.{
  ◌>>=◌, none, some, [], ◌∷◌, ◌++◌, List, ℕ, suc, zero, Option, Bool, if◌then◌else◌, true, false,
  ◌||◌, ◌+◌, drop, map, get_elem?, ltb, length, ◌==◌,
}
use fprime_gds.Base.Text.{Text, codes, text_eq, join}
use fprime_gds.Base.Decimal.{show_ℕ}
use fprime_gds.Base.Store.{find_key}

-- types.indexOf(name) !== -1
pub is_one_of : Text → List Text → Bool
unfolding text_eq
is_one_of name [] = false
is_one_of name (t ∷ ts) = text_eq t name || is_one_of name ts

module _ {N : Type 0} (parent prev : N → Option N) (name : N → Text) where
  -- The first node from `node` upwards that has one of the types; the outer option is the fuel.
  pub matching_node_parent : List Text → ℕ → Option N → Option (Option N)
  unfolding is_one_of
  matching_node_parent types fuel none = some none
  matching_node_parent types zero (some n) = none
  matching_node_parent types (suc fuel) (some n) =
      let above = matching_node_parent types fuel (parent n) in
      if is_one_of (name n) types then some (some n) else above

  -- node.prevSibling of the node that is found, or else of the one before.
  step_left : N → Option N → Option N
  step_left n none = prev n
  step_left n (some c) = prev c

  pushed : Option N → List N → List N
  pushed none rest = rest
  pushed (some c) rest = c ∷ rest

  -- The loop of sibling_list.
  pub siblings_from : List Text → ℕ → Option N → Option (List N)
  unfolding matching_node_parent step_left pushed
  siblings_from types fuel none = some []
  siblings_from types zero (some n) = none
  siblings_from types (suc fuel) (some n) = do
    current ← matching_node_parent types (suc fuel) (some n)
    rest ← siblings_from types fuel (step_left n current)
    some (pushed current rest)

  pub sibling_list : List Text → ℕ → N → Option (List N)
  unfolding siblings_from
  sibling_list types fuel n = siblings_from types fuel (prev n)

-- An argument of a command: the name of its type and, where it has an ENUM_DICT, its keys.
pub record Arg : Type 0 where
  pub type_name : Text
  pub enum_dict : Option (List Text)

pub data Offer : Type 0 where
  label : Text → Offer
  snippet : Text → Text → Offer

template_items : List Arg → ℕ → List Text
unfolding show_ℕ
template_items [] suffix = []
template_items (a ∷ args) suffix =
    (codes "${" ++ (a.type_name ++ (codes "_" ++ (show_ℕ suffix ++ codes "}"))))
    ∷ template_items args (suffix + 1)

get_args_template : List Arg → ℕ → Text
unfolding template_items join
get_args_template args index = join (codes " ") (template_items (drop index args) index)

-- args[index].type.ENUM_DICT of an index below the length
enum_offers : Option Arg → List Offer
enum_offers none = []
enum_offers (some a) = elim a.enum_dict [ none ↦ [] | some ks ↦ map label ks ]

with_template : Text → List Offer → List Offer
with_template [] options = options
with_template (c ∷ cs) options = options ++ snippet (c ∷ cs) (codes "$ARGS") ∷ []

args_of : Option (List Arg) → List Arg
args_of none = []
args_of (some args) = args

pub results : Option (List Arg) → ℕ → List Offer
unfolding enum_offers with_template get_args_template args_of
results command index =
    let args = args_of command in
    with_template (get_args_template args index) (enum_offers (get_elem? args index))

-- siblings.filter(s => s.name === "Command")[0], with its index in the list; a sibling is its name
-- and its text here.
pub nearest_command : List (Text × Text) → Option (Text × ℕ)
unfolding text_eq
nearest_command [] = none
nearest_command ((name, text) ∷ rest) =
    if text_eq name (codes "Command")
    then some (text, 0)
    else (do (found, index) ← nearest_command rest; some (found, index + 1))

-- autoArg; `none` is null.
pub auto_arg : List (Text × List Arg) → List (Text × Text) → Option (List Offer)
unfolding nearest_command results find_key
auto_arg commands siblings = do
  (command, index) ← nearest_command siblings
  some (results (find_key command commands) index)

abbrev time_snippets : List Text
time_snippets =
    codes "R${hours}:${minutes}:${seconds}"
    ∷ codes "A${year}-${day_of_year}T${hours}:${minutes}:${seconds}"
    ∷ []

key_label : Text × List Arg → Offer
key_label (k, args) = label k

own_snippet : Text → Offer
own_snippet t = snippet t t

-- Whether the first sibling has one of the types.
first_is : List Text → List (Text × Text) → Bool
unfolding is_one_of
first_is types [] = false
first_is types ((name, text) ∷ rest) = is_one_of name types

-- autocomplete, on the type of the node and its siblings; `none` is null.
pub autocomplete : List (Text × List Arg) → Text → List (Text × Text) → Option (List Offer)
unfolding auto_arg first_is text_eq key_label own_snippet
autocomplete commands node siblings =
    if text_eq node (codes "Command") || first_is (codes "TimeTag" ∷ []) siblings
    then some (map key_label commands)
    else if text_eq node (codes "Arg") || first_is (codes "Command" ∷ codes "Arg" ∷ []) siblings
    then auto_arg commands siblings
    else if length siblings == 0
    then some (map own_snippet time_snippets)
    else none
