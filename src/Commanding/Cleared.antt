-- ===== src/Commanding/Cleared.antt =====
-- static/addons/commanding/arguments.js: what clear_argument leaves.
use mathlib.Core.Path.{subst}
use fprime_gds.Validate.{scalar, ScalarType}
use fprime_gds.Base.{some_same, ◌⊎◌, none, Option-cases, zero}
use fprime_gds.Commanding.{cleared_value, is_limited, first_key}
use fprime_gds.Commanding.{clear_tokens, clear_argument, List, Option, Text}
use fprime_gds.Validate.{
  Argument, compound, Fields, Token, find_field, set_field, field_tokens, token_eq,
}
use fprime_gds.Validate.Access.{find_field-set_field, token_eq_self, token_eq_sound}
use fprime_gds.Base.{
  List, Option, ◌∷◌, Bool, ◌≡◌, true, false, some, ◌||◌, ap, [], sym, >>=-eq-some, ℕ, ◌>>=◌, arith,
  Bool-cases, suc, ◌∙◌, inl, refl, inr,
}
use fprime_gds.Base.Text.{Text}

-- `t` is one of the tokens.
unfoldable pub listed : Token → List Token → Bool
listed t [] = false
listed t (u ∷ us) = token_eq t u || listed t us

-- The loop keeps the arguments of the other fields.
clear_tokens-others :
    (clear : Argument → Option Argument) (ts : List Token) (fs gs : Fields) (u : Token)
    → clear_tokens clear ts fs ≡ some gs
    → listed u ts ≡ false
    → find_field u gs ≡ find_field u fs
unfolding clear_tokens listed
clear_tokens-others clear [] fs gs u h n = ap (find_field u) (sym (some_same h))
clear_tokens-others clear (t ∷ ts) fs gs u h n =
    let (a, e, h1) =
      >>=-eq-some (find_field t fs) (λ a. clear a >>= λ b. clear_tokens clear ts (set_field t b fs))
        h in
    let (b, d, h2) = >>=-eq-some (clear a) (λ b. clear_tokens clear ts (set_field t b fs)) h1 in
    let other : token_eq u t ≡ false = ground (arith, n) in
    clear_tokens-others clear ts (set_field t b fs) gs u h2 (ground (arith, n))
    ∙ find_field-set_field u t b fs
    ∙ rw other refl

-- No token stands twice.
unfoldable pub Single : List Token → Type 0
unfolding listed
Single [] = Unit
Single (t ∷ ts) = (listed t ts ≡ false) × Single ts

-- The field `u` is there before and behind, cleared.
abbrev pub Cleared : (Argument → Option Argument) → Token → Fields → Fields → Type 0
Cleared clear u fs gs =
    (a : Argument) × (b : Argument) × (find_field u fs ≡ some a)
    × (clear a ≡ some b)
    × (find_field u gs ≡ some b)

clear_tokens-Cleared :
    (clear : Argument → Option Argument) (ts : List Token) (fs gs : Fields) (u : Token)
    → Single ts
    → clear_tokens clear ts fs ≡ some gs
    → listed u ts ≡ true
    → Cleared clear u fs gs
unfolding clear_tokens listed Single
clear_tokens-Cleared clear [] fs gs u s h n = cc
clear_tokens-Cleared clear (t ∷ ts) fs gs u (s, ss) h n =
    let (a, e, h1) =
      >>=-eq-some (find_field t fs) (λ a. clear a >>= λ b. clear_tokens clear ts (set_field t b fs))
        h in
    let (b, d, h2) = >>=-eq-some (clear a) (λ b. clear_tokens clear ts (set_field t b fs)) h1 in
    elim (Bool-cases (token_eq u t)) [
      | inl q ↦
          let same : u ≡ t = token_eq_sound u t q in
          rw same (
            a,
            b,
            e,
            d,
            clear_tokens-others clear ts (set_field t b fs) gs t h2 s
                ∙ find_field-set_field t t b fs
                ∙ rw (token_eq_self t, e) refl,
          )
      | inr q ↦
          let (c, k, i, j, l) =
            clear_tokens-Cleared clear ts (set_field t b fs) gs u ss h2 (ground (arith, n, q)) in
          (c, k, sym (find_field-set_field u t b fs ∙ rw q refl) ∙ i, j, l)
    ]

-- What is left of the value of a scalar: "" with a MAX_LENGTH that is not 0, else the first key of an
-- enumeration, else null.
pub data Blank (t : ScalarType) : Option Text → Type 0 where
  emptied : {n : ℕ} → t.max_length ≡ some (suc n) → Blank t (some [])
  first :
      {k : Text} {ks : List Text}
      → (t.max_length ≡ none) ⊎ (t.max_length ≡ some 0)
      → t.enum_dict ≡ some (k ∷ ks)
      → Blank t (some k)
  nulled :
      (t.max_length ≡ none) ⊎ (t.max_length ≡ some 0)
      → (t.enum_dict ≡ none) ⊎ (t.enum_dict ≡ some [])
      → Blank t none

-- The argument is the one before, without errors and with blank scalars, down to the depth.
unfoldable pub Reset : ℕ → Argument → Argument → Type 0
Reset zero a b = ⊥
Reset (suc n) (scalar t value error) b = (w : Option Text) × (b ≡ scalar t w []) × Blank t w
Reset (suc n) (compound t fs error) b =
    (gs : Fields) × (b ≡ compound t gs [])
    × ((u : Token)
        → listed u (field_tokens t) ≡ true
        → (c : Argument) × (d : Argument) × (find_field u fs ≡ some c)
          × (find_field u gs ≡ some d)
          × Reset n c d)
    × ((u : Token) → listed u (field_tokens t) ≡ false → find_field u gs ≡ find_field u fs)

-- Every field that the types list is there, once, down to the depth.
unfoldable pub HasFields : ℕ → Argument → Type 0
HasFields zero a = ⊥
HasFields (suc n) (scalar t value error) = Unit
HasFields (suc n) (compound t fs error) =
    Single (field_tokens t)
    × ((u : Token)
        → listed u (field_tokens t) ≡ true
        → (a : Argument) × (find_field u fs ≡ some a) × HasFields n a)

unlimited-Blank :
    (t : ScalarType)
    → (t.max_length ≡ none) ⊎ (t.max_length ≡ some 0)
    → is_limited t.max_length ≡ false
    → Blank t (cleared_value t)
unfolding cleared_value first_key
unlimited-Blank t m l = elim (Option-cases t.enum_dict) [
  | inl e ↦ subst (Blank t) (rw (l, e) refl) (nulled m (inl e))
  | inr ([], e) ↦ subst (Blank t) (rw (l, e) refl) (nulled m (inr e))
  | inr (k ∷ ks, e) ↦ subst (Blank t) (rw (l, e) refl) (first m e)
]

cleared_value-Blank : (t : ScalarType) → Blank t (cleared_value t)
unfolding cleared_value is_limited
cleared_value-Blank t = elim (Option-cases t.max_length) [
  | inl e ↦ unlimited-Blank t (inl e) (rw e refl)
  | inr (zero, e) ↦ unlimited-Blank t (inr e) (rw e refl)
  | inr (suc n, e) ↦ subst (Blank t) (rw e refl) (emptied e)
]

module _ (clear : Argument → Option Argument) (H : Argument → Type 0)
    (R : Argument → Argument → Type 0)
    (clears : (a : Argument) → H a → (b : Argument) × (clear a ≡ some b) × R a b) where
  There : List Token → Fields → Type 0
  There ts fs = (u : Token) → listed u ts ≡ true → (a : Argument) × (find_field u fs ≡ some a) × H a

  There-set_field :
      (t : Token) (ts : List Token) (b : Argument) (fs : Fields)
      → listed t ts ≡ false
      → There (t ∷ ts) fs
      → There ts (set_field t b fs)
  unfolding There listed
  There-set_field t ts b fs s h u l = elim (Bool-cases (token_eq u t)) [
    | inl q ↦
        let clash : listed t ts ≡ true = ap (λ x. listed x ts) (sym (token_eq_sound u t q)) ∙ l in
        absurd cc
    | inr q ↦ let (a, e, k) = h u (ground arith) in (a, find_field-set_field u t b fs ∙ rw q e, k)
  ]

  There-head :
      (t : Token) (ts : List Token) (fs : Fields)
      → There (t ∷ ts) fs
      → (a : Argument) × (find_field t fs ≡ some a) × H a
  unfolding There listed
  There-head t ts fs h = h t (rw (token_eq_self t) refl)

  clear_tokens-returns :
      (ts : List Token) (fs : Fields)
      → Single ts
      → There ts fs
      → (gs : Fields) × (clear_tokens clear ts fs ≡ some gs)
  unfolding clear_tokens Single
  clear_tokens-returns [] fs s h = (fs, refl)
  clear_tokens-returns (t ∷ ts) fs (s, ss) h =
      let (a, e, k) = There-head t ts fs h in
      let (b, d, r) = clears a k in
      let (gs, g) = clear_tokens-returns ts (set_field t b fs) ss (There-set_field t ts b fs s h) in
      (gs, rw (e, d) g)

  clear_tokens-related :
      (ts : List Token) (fs gs : Fields) (u : Token)
      → Single ts
      → There ts fs
      → clear_tokens clear ts fs ≡ some gs
      → listed u ts ≡ true
      → (c : Argument) × (d : Argument) × (find_field u fs ≡ some c)
        × (find_field u gs ≡ some d)
        × R c d
  unfolding There
  clear_tokens-related ts fs gs u s h e l =
      let (a, b, f, d, g) = clear_tokens-Cleared clear ts fs gs u s e l in
      let (c, f', k) = h u l in
      let (w, d', r) = clears c k in
      (c, w, f', g ∙ sym d ∙ ap clear (some_same (sym f ∙ f')) ∙ d', r)

-- Clearing an argument with every field that its types list, each once, returns the same argument
-- without errors, in which every scalar is blank by its type, and fields of no type are as they were.
pub clear_argument-Reset :
    (n : ℕ) (a : Argument)
    → HasFields n a
    → (b : Argument) × (clear_argument n a ≡ some b) × Reset n a b
unfolding clear_argument HasFields Reset There
clear_argument-Reset zero a h = absurd h
clear_argument-Reset (suc n) (scalar t value error) h =
    (scalar t (cleared_value t) [], refl, (cleared_value t, refl, cleared_value-Blank t))
clear_argument-Reset (suc n) (compound t fs error) (s, h) =
    let ts = field_tokens t in
    let clear = clear_argument n in
    let ih = clear_argument-Reset n in
    let (gs, e) = clear_tokens-returns clear (HasFields n) (Reset n) ih ts fs s h in
    (
      compound t gs [],
      rw e refl,
      (
        gs,
        refl,
        (λ u l. clear_tokens-related clear (HasFields n) (Reset n) ih ts fs gs u s h e l),
        (λ u l. clear_tokens-others clear ts fs gs u e l),
      ),
    )
