-- ===== src/Search.antt =====
-- static/js/vue-support/utils.js: the search in lists of items, and the small text helpers.
mod Tests
pub mod Attributes
pub mod Filter
pub mod Groups
use fprime_gds.Base.{
  ℕ, Option, List, Bool, ◌∷◌, if◌then◌else◌, false, map, true, [], some, ◌++◌, ◌||◌, none,
}
use fprime_gds.Base.Text.{Text, text_eq, includes, codes}

-- What `matching` may be: one token or several, each of which may be undefined.
pub data Matching : Type 0 where
  single : Option Text → Matching
  several : List (Option Text) → Matching

pub matching_list : Matching → List (Option Text)
matching_list (single t) = t ∷ []
matching_list (several ts) = ts

-- .filter(item => typeof(item) !== "undefined")
pub defined : List (Option Text) → List Text
defined [] = []
defined (none ∷ ts) = defined ts
defined (some t ∷ ts) = t ∷ defined ts

abbrev pub or_token : Text
or_token = codes "-or-"

-- `processed` is `closed` with `last` behind it.
pub record Grouping : Type 0 where
  pub oring : Bool
  pub closed : List (List Text)
  pub last : List Text

-- One round of the loop of `preprocess_matchings`.
pub add_token : Text → Grouping → Grouping
unfolding text_eq
add_token t g =
    if text_eq t or_token
    then record g { oring = true }
    else if g.oring
    then record { oring = false; closed = g.closed; last = g.last ++ t ∷ [] }
    else record { oring = false; closed = g.closed ++ g.last ∷ []; last = t ∷ [] }

pub add_tokens : List Text → Grouping → Grouping
unfolding add_token
add_tokens [] g = g
add_tokens (t ∷ ts) g = add_tokens ts (add_token t g)

-- processed.filter(array => array.length > 0)
pub nonempty : List (List Text) → List (List Text)
nonempty [] = []
nonempty ([] ∷ gs) = nonempty gs
nonempty ((t ∷ ts) ∷ gs) = (t ∷ ts) ∷ nonempty gs

-- The reduction over the tokens of one group.
pub any_found : Text → List Text → Bool
unfolding includes
any_found s [] = false
any_found s (t ∷ ts) = includes t s || any_found s ts

-- sentenceCase; `upper` is toUpperCase.
pub sentence_case : (Text → Text) → Text → Text
sentence_case upper [] = []
sentence_case upper (c ∷ cs) = upper (c ∷ []) ++ cs

module _ (lower : Text → Text) where
  pub preprocess_matchings : Matching → List (List Text)
  unfolding matching_list defined add_tokens nonempty
  preprocess_matchings m =
      let g =
        add_tokens (map lower (defined (matching_list m)))
          (record { oring = false; closed = []; last = [] }) in
      nonempty (g.closed ++ g.last ∷ [])

  -- The loop over the groups; whether it came to its end.
  pub all_found : Text → List (List Text) → Bool
  unfolding any_found
  all_found s [] = true
  all_found s (g ∷ gs) = let rest = all_found s gs in if any_found (lower s) g then rest else false

  -- The loop over the items; `stringer` is the function that turns an item into a text.
  pub filter_items : {A : Type 0} → (A → Text) → List (List Text) → List A → List A
  unfolding all_found
  filter_items stringer groups [] = []
  filter_items stringer groups (x ∷ xs) =
      let rest = filter_items stringer groups xs in
      if all_found (stringer x) groups then x ∷ rest else rest

  pub filter : {A : Type 0} → List A → Matching → (A → Text) → List A
  unfolding preprocess_matchings filter_items
  filter items matching stringer = filter_items stringer (preprocess_matchings matching) items
