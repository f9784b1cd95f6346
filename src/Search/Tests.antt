-- ===== src/Search/Tests.antt =====
-- Searches in short lists.
use fprime_gds.Search.{
  several, single, filter, preprocess_matchings, Text, List, codes, filter_items, some, all_found,
  any_found, matching_list, defined, add_tokens, add_token, nonempty,
}
use fprime_gds.Search.Filter.{filter-Sifted, Sifted, Matches}
use fprime_gds.Search.Groups.{
  preprocess_matchings-typed, typed, meant, Query, alternatives, Plain, PlainQuery, AreLower,
}
use fprime_gds.Base.Text.{Text, codes, text_eq, includes, is_prefix}
use fprime_gds.Base.{List, some, ◌∷◌, [], map, none, ◌≡◌, refl}

abbrev same_case : Text → Text
same_case t = t

abbrev names : List Text
names = codes "cmd.sent" ∷ codes "cmd.lost" ∷ codes "log.lost" ∷ []

abbrev asked : Query
asked = (codes "cmd", codes "event" ∷ []) ∷ (codes "lost", []) ∷ []

found : filter same_case names (several (map some (typed asked))) same_case ≡ codes "cmd.lost" ∷ []
unfolding filter filter_items all_found any_found preprocess_matchings matching_list defined
    add_tokens add_token nonempty typed alternatives text_eq includes is_prefix
found = refl

everything : filter same_case names (single none) same_case ≡ names
unfolding filter filter_items all_found preprocess_matchings matching_list defined add_tokens
    nonempty
everything = refl

preprocess_matchings-typed_example :
    preprocess_matchings same_case (several (map some (typed asked)))
    ≡ (codes "cmd" ∷ codes "event" ∷ []) ∷ (codes "lost" ∷ []) ∷ []
unfolding meant typed alternatives Plain PlainQuery AreLower text_eq
preprocess_matchings-typed_example =
    preprocess_matchings-typed same_case asked (((refl, (refl, tt)), ((refl, tt), tt)))
      (refl, (refl, (refl, (refl, tt))))

filter-Sifted_example :
    Sifted
      (λ x. Matches x (preprocess_matchings same_case (single (some (codes "lost")))))
      names
      (filter same_case names (single (some (codes "lost"))) same_case)
filter-Sifted_example = filter-Sifted same_case names (single (some (codes "lost"))) same_case
