-- ===== src/Search/Attributes.antt =====
-- static/js/vue-support/utils.js: lists that stand in the attributes of a page, and the test that
-- hides rows by them.
mod Tests
use fprime_gds.Base.{
  none, some, [], ◌∷◌, ◌++◌, List, ℕ, suc, zero, Option, Bool, length, ◌>>=◌, ◌==◌, if◌then◌else◌,
  ltb, not, ◌||◌, ◌&&◌, ◌≡◌, refl,
}
use fprime_gds.Base.Text.{Text, codes, includes}
use fprime_gds.Base.Decimal.{is_white, trim}
use fprime_gds.Validate.{contains}

-- The units that `.` does not match.
is_line_end : ℕ → Bool
is_line_end c = c == 10 || c == 13 || c == 0x2028 || c == 0x2029

-- (.*?)' behind an opening quote: what is enclosed, and what follows.
enclosed_at_head : Text → Option (Text × Text)
unfolding is_line_end
enclosed_at_head [] = none
enclosed_at_head (c ∷ cs) =
    if c == b'\''
    then some ([], cs)
    else if is_line_end c
    then none
    else (do r ← enclosed_at_head cs; some (c ∷ r.0, r.1))

-- The enclosed texts, and the text without them; the fuel bounds the units of the text.
take_enclosed : ℕ → Text → List Text × Text
unfolding enclosed_at_head
take_enclosed zero t = ([], t)
take_enclosed (suc fuel) [] = ([], [])
take_enclosed (suc fuel) (c ∷ cs) =
    let rest = take_enclosed fuel cs in
    elim (if c == b'\'' then enclosed_at_head cs else none) [
      | none ↦ (rest.0, c ∷ rest.1)
      | some (inside, behind) ↦ let r = take_enclosed fuel behind in (inside ∷ r.0, r.1)
    ]

-- text.split(/\s+/), with an empty part between two units of white space too.
split_at_white : Text → List Text
unfolding is_white
split_at_white [] = [] ∷ []
split_at_white (c ∷ cs) =
    let parts = split_at_white cs in
    if is_white c then [] ∷ parts else elim parts [ [] ↦ (c ∷ []) ∷ [] | p ∷ ps ↦ (c ∷ p) ∷ ps ]

-- items.filter(x => !!x)
non_empty : List Text → List Text
non_empty [] = []
non_empty ([] ∷ ts) = non_empty ts
non_empty ((c ∷ cs) ∷ ts) = (c ∷ cs) ∷ non_empty ts

items_of_text : List Text × Text → List Text
unfolding split_at_white non_empty trim
items_of_text ([], others) = non_empty (split_at_white others)
items_of_text (e ∷ es, others) = non_empty (split_at_white (trim others) ++ e ∷ es)

-- attributeStringToList, where the enclosing character is the quote.
pub attribute_string_to_list : Text → List Text
unfolding take_enclosed items_of_text
attribute_string_to_list t = items_of_text (take_enclosed (length t) t)

-- What an attribute holds.
pub data Attribute : Type 0 where
  missing : Attribute
  string : Text → Attribute
  array : List Text → Attribute

pub to_array_if_string : Attribute → List Text
unfolding attribute_string_to_list
to_array_if_string missing = []
to_array_if_string (string []) = []
to_array_if_string (string (c ∷ cs)) = attribute_string_to_list (c ∷ cs)
to_array_if_string (array ts) = ts

-- `none` is the TypeError of a missing list; `name` is item.template.name.
pub list_exists_and_item_name_not_in_list : Attribute → Text → Option Bool
unfolding contains includes
list_exists_and_item_name_not_in_list missing name = none
list_exists_and_item_name_not_in_list (string t) name =
    some (ltb 0 (length t) && not (includes name t))
list_exists_and_item_name_not_in_list (array ts) name =
    some (ltb 0 (length ts) && not (contains name ts))
