-- ===== src/Search/Groups.antt =====
-- static/js/vue-support/utils.js: the groups that `preprocess_matchings` makes of the tokens.
use mathlib.Core.List.{append-nil, append_assoc}
use fprime_gds.Search.{
  several, defined, or_token, add_token, add_tokens, nonempty, preprocess_matchings, Grouping,
  matching_list, List, text_eq,
}
use fprime_gds.Base.{List, ◌≡◌, ◌∷◌, false, ◌++◌, [], refl, ◌∙◌, map, some, ap, true}
use fprime_gds.Base.Text.{text_eq, Text}

-- A search as it is typed: groups of a first token and further ones, with "-or-" in front of each
-- further one.
abbrev pub Query : Type 0
Query = List (Text × List Text)

unfoldable pub alternatives : List Text → List Text
alternatives [] = []
alternatives (t ∷ ts) = or_token ∷ t ∷ alternatives ts

unfoldable pub typed : Query → List Text
unfolding alternatives
typed [] = []
typed ((t, ts) ∷ q) = t ∷ alternatives ts ++ typed q

unfoldable pub meant : Query → List (List Text)
meant [] = []
meant ((t, ts) ∷ q) = (t ∷ ts) ∷ meant q

-- No token is "-or-".
unfoldable pub Plain : List Text → Type 0
Plain [] = Unit
Plain (t ∷ ts) = (text_eq t or_token ≡ false) × Plain ts

unfoldable pub PlainQuery : Query → Type 0
PlainQuery [] = Unit
PlainQuery ((t, ts) ∷ q) = Plain (t ∷ ts) × PlainQuery q

add_tokens-append :
    (ts us : List Text) (g : Grouping) → add_tokens (ts ++ us) g ≡ add_tokens us (add_tokens ts g)
unfolding add_tokens
add_tokens-append [] us g = refl
add_tokens-append (t ∷ ts) us g = add_tokens-append ts us (add_token t g)

or_seen : (g : Grouping) → add_token or_token g ≡ record g { oring = true }
unfolding add_token text_eq
or_seen g = refl

add_token_more :
    (t : Text) (closed : List (List Text)) (last : List Text)
    → text_eq t or_token ≡ false
    → add_token t (record { oring = true; closed = closed; last = last })
      ≡ record { oring = false; closed = closed; last = last ++ t ∷ [] }
unfolding add_token
add_token_more t closed last h = rw h refl

add_token_new :
    (t : Text) (closed : List (List Text)) (last : List Text)
    → text_eq t or_token ≡ false
    → add_token t (record { oring = false; closed = closed; last = last })
      ≡ record { oring = false; closed = closed ++ last ∷ []; last = t ∷ [] }
unfolding add_token
add_token_new t closed last h = rw h refl

add_tokens-alternatives :
    (ts : List Text) (closed : List (List Text)) (last : List Text)
    → Plain ts
    → add_tokens (alternatives ts) (record { oring = false; closed = closed; last = last })
      ≡ record { oring = false; closed = closed; last = last ++ ts }
unfolding add_tokens alternatives Plain
add_tokens-alternatives [] closed last p = rw (append-nil last)
add_tokens-alternatives (t ∷ ts) closed last (h, p) =
    ap (λ g. add_tokens (alternatives ts) (add_token t g))
      (or_seen (record { oring = false; closed = closed; last = last }))
    ∙ ap (add_tokens (alternatives ts)) (add_token_more t closed last h)
    ∙ add_tokens-alternatives ts closed (last ++ t ∷ []) p
    ∙ rw (append_assoc last (t ∷ []) ts)

groups_of : Grouping → List (List Text)
groups_of g = g.closed ++ g.last ∷ []

add_tokens-typed :
    (q : Query) (closed : List (List Text)) (last : List Text)
    → PlainQuery q
    → groups_of (add_tokens (typed q) (record { oring = false; closed = closed; last = last }))
      ≡ closed ++ last ∷ meant q
unfolding typed meant PlainQuery add_tokens Plain groups_of
add_tokens-typed [] closed last p = refl
add_tokens-typed ((t, ts) ∷ q) closed last ((h, p), ps) =
    ap (λ g. groups_of (add_tokens (alternatives ts ++ typed q) g)) (add_token_new t closed last h)
    ∙ ap groups_of (
        add_tokens-append (alternatives ts) (typed q)
          (record { oring = false; closed = closed ++ last ∷ []; last = t ∷ [] }))
    ∙ ap (λ g. groups_of (add_tokens (typed q) g))
        (add_tokens-alternatives ts (closed ++ last ∷ []) (t ∷ []) p)
    ∙ add_tokens-typed q (closed ++ last ∷ []) (t ∷ ts) ps
    ∙ append_assoc closed (last ∷ []) ((t ∷ ts) ∷ meant q)

meant-nonempty : (q : Query) → nonempty (meant q) ≡ meant q
unfolding nonempty meant
meant-nonempty [] = refl
meant-nonempty ((t, ts) ∷ q) = rw (meant-nonempty q)

-- Tokens that `lower` leaves alone.
unfoldable pub AreLower : (Text → Text) → List Text → Type 0
AreLower lower [] = Unit
AreLower lower (t ∷ ts) = (lower t ≡ t) × AreLower lower ts

map-AreLower : (lower : Text → Text) (ts : List Text) → AreLower lower ts → map lower ts ≡ ts
unfolding AreLower
map-AreLower lower [] l = refl
map-AreLower lower (t ∷ ts) (e, l) = rw (e, map-AreLower lower ts l)

defined-some : (ts : List Text) → defined (map some ts) ≡ ts
unfolding defined
defined-some [] = refl
defined-some (t ∷ ts) = rw (defined-some ts)

-- The groups of a search typed in lower case, none of whose tokens is "-or-", are those that were
-- typed: "-or-" joins a token to the group before it, and any other token begins a group.
pub preprocess_matchings-typed :
    (lower : Text → Text) (q : Query)
    → PlainQuery q
    → AreLower lower (typed q)
    → preprocess_matchings lower (several (map some (typed q))) ≡ meant q
unfolding preprocess_matchings matching_list groups_of nonempty
preprocess_matchings-typed lower q p l =
    rw (defined-some (typed q), map-AreLower lower (typed q) l)
      (ap nonempty (add_tokens-typed q [] [] p) ∙ meant-nonempty q)
