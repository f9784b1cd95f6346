-- ===== src/Validate/Idempotent.antt =====
-- A second validation of a whole argument answers as the first did, and changes nothing.
use mathlib.Core.Path.{subst}
use fprime_gds.Base.{
  refl, arith, ℕ, zero, suc, Option, List, [], ◌≡◌, none, some, ◌∷◌, Option-cases, sym, inl, inr,
}
use fprime_gds.Validate.{
  Progress, Argument, Verdict, validate_tokens, missing, Token, validated, find_field,
  validate_array_or_struct_input, CompoundType, Fields, Text, compound, field_tokens, passed,
  error_of, validate_input, is_passed, ScalarType, scalar, validate_scalar_input,
}
use fprime_gds.Validate.Access.{find_field-set_field, token_eq_sound, token_eq_self, set_field_same}
use fprime_gds.Base.Text.{Text, join, codes}
use fprime_gds.Validate.Scalar.{validate_scalar_input_idem, validate_scalar_input-ne-compound}

-- The runs of the loop over the tokens, one constructor for each branch of its body.
pub data Ran (validate : Argument → Option (Verdict × Argument))
    : List Token → Progress → Progress → Type 0 where
  done : {p : Progress} → Ran validate [] p p
  skip :
      {t : Token} {ts : List Token} {p q : Progress}
      → find_field t p.fields ≡ none
      → Ran validate ts (missing t p) q
      → Ran validate (t ∷ ts) p q
  check :
      {t : Token} {ts : List Token} {p q : Progress} (a b : Argument) (v : Verdict)
      → find_field t p.fields ≡ some a
      → validate a ≡ some (v, b)
      → Ran validate ts (validated t (v, b) p) q
      → Ran validate (t ∷ ts) p q

module _ (validate : Argument → Option (Verdict × Argument)) where
  pub ran :
      (ts : List Token) (p q : Progress)
      → validate_tokens validate ts p ≡ some q
      → Ran validate ts p q
  unfolding validate_tokens
  ran [] p q h = (let e : p ≡ q = cc in subst (λ x. Ran validate [] p x) e done)
  ran (t ∷ ts) p q h = elim (Option-cases (find_field t p.fields)) [
    | inl m ↦ skip m (ran ts (missing t p) q (ground arith))
    | inr (a, m) ↦ elim (Option-cases (validate a)) [
      | inl n ↦ absurd (ground arith)
      | inr ((v, b), n) ↦ check a b v m n (ran ts (validated t (v, b) p) q (ground arith))
    ]
  ]

  pub unran :
      {ts : List Token} {p q : Progress}
      → Ran validate ts p q
      → validate_tokens validate ts p ≡ some q
  unfolding validate_tokens
  unran done = refl
  unran (skip m r) = rw (m, validate_tokens) (unran r)
  unran (check a b v m n r) = rw (m, validate_tokens) (rw n (unran r))

  keeps_absent :
      {ts : List Token} {p q : Progress} (t : Token)
      → find_field t p.fields ≡ none
      → Ran validate ts p q
      → find_field t q.fields ≡ none
  unfolding missing validated
  keeps_absent t h done = h
  keeps_absent t h (skip m r) = keeps_absent t h r
  keeps_absent t h (check {t = u} {p = p} a b v m n r) =
      keeps_absent t (rw find_field-set_field (ground (arith))) r

  keeps_settled :
      {ts : List Token} {p q : Progress} (t : Token) (b : Argument) (v : Verdict)
      → validate b ≡ some (v, b)
      → find_field t p.fields ≡ some b
      → Ran validate ts p q
      → find_field t q.fields ≡ some b
  unfolding missing validated
  keeps_settled t b v s h done = h
  keeps_settled t b v s h (skip m r) = keeps_settled t b v s h r
  keeps_settled t b v s h (check {t = u} {p = p} a c w m n r) =
      keeps_settled t b v s (rw find_field-set_field (ground (arith, token_eq_sound t u))) r

  module _
      (again : (a b : Argument) (v : Verdict)
        → validate a ≡ some (v, b)
        → validate b ≡ some (v, b)) where
    -- The run that starts from the fields that a run leaves repeats its answers and errors.
    replay :
        {ts : List Token} {p q : Progress} (p' : Progress)
        → p'.valid ≡ p.valid
        → p'.errors ≡ p.errors
        → p'.fields ≡ q.fields
        → Ran validate ts p q
        → Ran validate ts p' q
    unfolding missing validated
    replay {q} p' v e f done =
        (let same : q ≡ p' = ground arith in subst (λ x. Ran validate [] p' x) (sym same) done)
    replay p' v e f (skip {t = t} m r) =
        skip (rw f (keeps_absent t m r)) (replay (missing t p') v (ground arith) f r)
    replay p' v e f (check {t = t} {p = p} {q = q} a b w m n r) =
        check b b w (rw f kept) (again a b w n) (
          replay (validated t (w, b) p') (ground arith) (ground arith)
            (rw f (set_field_same t b q.fields kept)) r)
      where
        kept : find_field t q.fields ≡ some b
        kept = keeps_settled t b w (again a b w n) (rw (find_field-set_field, token_eq_self t, m)) r

    compound_again :
        (t : CompoundType) (fs : Fields) (b : Argument) (v : Verdict)
        → validate_array_or_struct_input validate t fs ≡ some (v, b)
        → (gs : Fields) × (e : Text) × (b ≡ compound t gs e)
          × (validate_array_or_struct_input validate t gs ≡ some (v, b))
    unfolding validate_array_or_struct_input
    compound_again t fs b v h =
        elim (Option-cases (
          validate_tokens validate (field_tokens t)
            (record { valid = passed; errors = []; fields = fs }))) [
              | inl m ↦ absurd (ground arith)
              | inr (q, m) ↦ (
                q.fields,
                error_of (is_passed q.valid) (join (codes " ") q.errors),
                ground arith,
                rw
                    (unran (
                      replay (record { valid = passed; errors = []; fields = q.fields }) refl refl
                        refl (ran (field_tokens t) _ q m)))
                    (ground arith),
              )
            ]

module _ (lower : Text → Text) where
  scalar_again :
      (t : ScalarType) (value : Option Text) (error : Text) (b : Argument) (v : Verdict) (f : ℕ)
      → validate_scalar_input lower t value error ≡ (v, b)
      → validate_input lower (suc f) b ≡ some (v, b)
  unfolding validate_input
  scalar_again t value error (scalar t' value' error') v f h =
      (let i = validate_scalar_input_idem lower t t' value value' error error' v h in
        rw i.0 (rw i.1))
  scalar_again t value error (compound t' fs e) v f h =
      absurd (validate_scalar_input-ne-compound lower t t' value error e fs v h)

  -- Validation settles an argument of any depth, with the rewriting of enumeration values that it
  -- does: a second one gives the same answer and the same argument, its errors included.
  pub validate_input_idem :
      (f : ℕ) (a b : Argument) (v : Verdict)
      → validate_input lower f a ≡ some (v, b)
      → validate_input lower f b ≡ some (v, b)
  unfolding validate_input
  validate_input_idem zero a b v h = absurd (ground arith)
  validate_input_idem (suc f) (scalar t value error) b v h =
      scalar_again t value error b v f (ground arith)
  validate_input_idem (suc f) (compound t fs error) b v h =
      (let (gs, e, shape, result) =
          compound_again (validate_input lower f) (validate_input_idem f) t fs b v h in
        subst (λ x. validate_input lower (suc f) x ≡ some (v, b)) (sym shape) result)
