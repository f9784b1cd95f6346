-- ===== src/Validate/Compound.antt =====
-- What the validation of an array or a structure answers, and that validation ends.
use fprime_gds.Base.{
  ℕ, zero, suc, refl, List, Option, ◌∷◌, [], ◌≡◌, some, false, ◌↔◌, arith, ◌≤◌, max, Bool-cases,
  inl, inr, ◌<◌, none, Option-cases, ◌≢◌,
}
use fprime_gds.Validate.{
  end, field, unset, failed, Progress, Argument, Token, Verdict, token_eq, Fields, and_verdict,
  missing, find_field, set_field, passed, validated, failed, scalar, Text, compound, field,
  ScalarType, validate_scalar_input, validate_tokens, validate_input,
  validate_array_or_struct_input, CompoundType, field_tokens,
}
use fprime_gds.Validate.Idempotent.{Ran, skip, check, done, ran}
use fprime_gds.Validate.Access.{find_field-set_field}
use fprime_gds.Base.Text.{Text}
use fprime_gds.Validate.Scalar.{validate_scalar_input-ne-compound}

-- The argument passes.
abbrev pub Passes : (Argument → Option (Verdict × Argument)) → Argument → Type 0
Passes validate a = (b : Argument) × (validate a ≡ some (passed, b))

-- The fields that are there pass.
abbrev pub PresentPass : (Argument → Option (Verdict × Argument)) → List Token → Fields → Type 0
PresentPass validate [] fs = Unit
PresentPass validate (t ∷ ts) fs =
    ((a : Argument) → find_field t fs ≡ some a → Passes validate a) × PresentPass validate ts fs

abbrev pub Absent : Token → List Token → Type 0
Absent t [] = Unit
Absent t (u ∷ us) = (token_eq u t ≡ false) × Absent t us

abbrev pub Distinct : List Token → Type 0
Distinct [] = Unit
Distinct (t ∷ ts) = Absent t ts × Distinct ts

module _ (validate : Argument → Option (Verdict × Argument)) where
  PresentPass-set_field :
      (ts : List Token) (t : Token) (b : Argument) (fs : Fields)
      → Absent t ts
      → PresentPass validate ts (set_field t b fs) ↔ PresentPass validate ts fs
  PresentPass-set_field [] t b fs d = (λ x. tt, λ x. tt)
  PresentPass-set_field (u ∷ ts) t b fs d = (
    λ x. (
      λ a e. x.0 a (rw (find_field-set_field, d.0) e),
      (PresentPass-set_field ts t b fs d.1).0 x.1,
    ),
    λ x. (
      λ a e. x.0 a (rw (find_field-set_field, d.0) at e),
      (PresentPass-set_field ts t b fs d.1).1 x.1,
    ),
  )

  and_passed : (v w : Verdict) → and_verdict v w ≡ passed → (v ≡ passed) × (w ≡ passed)
  and_passed passed w h = (refl, h)
  and_passed failed w h = cc
  and_passed unset w h = cc

  all_pass : (v w : Verdict) → v ≡ passed → w ≡ passed → and_verdict v w ≡ passed
  all_pass v w h k = rw h k

  passes :
      (v : Verdict) (a b : Argument) → validate a ≡ some (v, b) → Passes validate a → v ≡ passed
  passes v a b n (c, k) = ground arith

  Ran-passed :
      {ts : List Token} {p q : Progress}
      → Distinct ts
      → Ran validate ts p q
      → (q.valid ≡ passed) ↔ ((p.valid ≡ passed) × PresentPass validate ts p.fields)
  unfolding missing validated
  Ran-passed d done = (λ h. (h, tt), λ h. h.0)
  Ran-passed d (skip m r) =
      (let ih = Ran-passed d.1 r in
        (λ h. ((ih.0 h).0, (λ a e. absurd (cc), (ih.0 h).1)), λ h. ih.1 (h.0, h.1.1)))
  Ran-passed d (check {t = t} {ts = ts} {p = p} a b v m n r) =
      (let ih = Ran-passed d.1 r in
        (
          λ h.
              (let x = ih.0 h in
                let y = and_passed p.valid v x.0 in
                (
                  y.0,
                  (λ a' e. (b, ground arith), (PresentPass-set_field ts t b p.fields d.0).0 x.1),
                )),
          λ k. ih.1 (
            all_pass p.valid v k.0 (passes v a b n (k.1.0 a m)),
            (PresentPass-set_field ts t b p.fields d.0).1 k.1.1,
          ),
        ))

-- The nesting of an argument.
unfoldable mutual
  pub depth : Argument → ℕ
  depth (scalar t value error) = 0
  depth (compound t fs error) = suc (depth_fields fs)

  pub depth_fields : Fields → ℕ
  depth_fields end = 0
  depth_fields (field t a fs) = max (depth a) (depth_fields fs)

depth-find_field :
    (t : Token) (a : Argument) (fs : Fields) → find_field t fs ≡ some a → depth a ≤ depth_fields fs
unfolding find_field depth_fields
depth-find_field t a end h = absurd (ground arith)
depth-find_field t a (field u b fs) h = elim (Bool-cases (token_eq t u)) [
  | inl e ↦ (let q : b ≡ a = ground arith in rw (← q) (omega arith))
  | inr e ↦ omega (arith, depth-find_field t a fs (ground arith))
]

depth-set_field :
    (t : Token) (a : Argument) (n : ℕ) (fs : Fields)
    → depth a ≤ n
    → depth_fields fs ≤ n
    → depth_fields (set_field t a fs) ≤ n
unfolding set_field depth_fields
depth-set_field t a n end h k = omega arith
depth-set_field t a n (field u b fs) h k = ground (arith, depth-set_field t a n fs)

module _ (lower : Text → Text) where
  depth-scalar :
      (t : ScalarType) (value : Option Text) (error : Text) (v : Verdict) (b : Argument)
      → validate_scalar_input lower t value error ≡ (v, b)
      → depth b ≡ 0
  unfolding depth
  depth-scalar t value error v (scalar t' value' error') h = refl
  depth-scalar t value error v (compound u fs e) h =
      absurd (validate_scalar_input-ne-compound lower t u value error e fs v h)

-- A validation returns, and its argument is nested at most `n` deep.
abbrev Bounded : ℕ → Option (Verdict × Argument) → Type 0
Bounded n none = ⊥
Bounded n (some r) = depth r.1 ≤ n

-- The loop returns, and its fields are nested at most `n` deep.
abbrev BoundedLoop : ℕ → Option Progress → Type 0
BoundedLoop n none = ⊥
BoundedLoop n (some p) = depth_fields p.fields ≤ n

validate_tokens-Bounded :
    (validate : Argument → Option (Verdict × Argument)) (n : ℕ)
    → ((a : Argument) → depth a ≤ n → Bounded n (validate a))
    → (ts : List Token) (p : Progress) → depth_fields p.fields ≤ n
    → BoundedLoop n (validate_tokens validate ts p)
unfolding validate_tokens missing validated
validate_tokens-Bounded validate n all [] p h = h
validate_tokens-Bounded validate n all (t ∷ ts) p h = elim (Option-cases (find_field t p.fields)) [
  | inl m ↦ rw (m, validate_tokens) (validate_tokens-Bounded validate n all ts (missing t p) h)
  | inr (a, m) ↦ elim (Option-cases (validate a)) [
    | inl e ↦ absurd (rw e at (all a (omega (arith, depth-find_field t a p.fields m))))
    | inr (r, e) ↦
        rw (m, validate_tokens)
          (rw e (
            validate_tokens-Bounded validate n all ts (validated t r p) (
              depth-set_field t r.1 n p.fields
                (rw e at (all a (omega (arith, depth-find_field t a p.fields m)))) h)))
  ]
]

module _ (lower : Text → Text) where
  compound-Bounded :
      (validate : Argument → Option (Verdict × Argument)) (n : ℕ) (t : CompoundType) (fs : Fields)
      → ((a : Argument) → depth a ≤ n → Bounded n (validate a))
      → depth_fields fs ≤ n
      → Bounded (suc n) (validate_array_or_struct_input validate t fs)
  unfolding validate_array_or_struct_input depth
  compound-Bounded validate n t fs all h =
      elim (Option-cases (validate_tokens validate (field_tokens t) start)) [
        | inl e ↦ absurd (rw e at (validate_tokens-Bounded validate n all (field_tokens t) start h))
        | inr (q, e) ↦ rw e (
            let b = validate_tokens-Bounded validate n all (field_tokens t) start h in
            let c : depth_fields q.fields ≤ n = rw e at b in omega arith)
      ]
    where
      start : Progress
      start = record { valid = passed; errors = []; fields = fs }

  validate_input-Bounded :
      (f n : ℕ) (a : Argument) → depth a ≤ n → n < f → Bounded n (validate_input lower f a)
  unfolding validate_input depth
  validate_input-Bounded zero n a h k = absurd (omega arith)
  validate_input-Bounded (suc f) n (scalar t value error) h k =
      (let e =
          depth-scalar lower t value error (validate_scalar_input lower t value error).0
            (validate_scalar_input lower t value error).1 refl in
        rw e (omega arith))
  validate_input-Bounded (suc f) zero (compound t fs error) h k = absurd (omega arith)
  validate_input-Bounded (suc f) (suc n) (compound t fs error) h k =
      compound-Bounded (validate_input lower f) n t fs
        (λ a d. validate_input-Bounded f n a d (omega arith)) (omega arith)

  -- Fuel above the depth of the argument is enough: validation returns.
  pub validate_input-returns :
      (f : ℕ) (a : Argument) → depth a < f → validate_input lower f a ≢ none
  validate_input-returns f a h e = rw e at (validate_input-Bounded f (depth a) a (omega arith) h)

  -- An array or a structure with distinct keys passes exactly when every field that is there
  -- passes: a key that its value lacks counts for nothing.
  pub compound_passes :
      (f : ℕ) (t : CompoundType) (fs : Fields) (error : Text) (v : Verdict) (b : Argument)
      → Distinct (field_tokens t)
      → validate_input lower (suc f) (compound t fs error) ≡ some (v, b)
      → (v ≡ passed) ↔ PresentPass (validate_input lower f) (field_tokens t) fs
  unfolding validate_input validate_array_or_struct_input
  compound_passes f t fs error v b d h =
      elim (Option-cases (validate_tokens (validate_input lower f) (field_tokens t) start)) [
        | inl e ↦ absurd (ground arith)
        | inr (q, e) ↦
            (let r =
                Ran-passed (validate_input lower f) d
                  (ran (validate_input lower f) (field_tokens t) start q e) in
              let same : v ≡ q.valid = ground arith in
              rw same ((λ p. (r.0 p).1), λ p. r.1 (refl, p)))
      ]
    where
      start : Progress
      start = record { valid = passed; errors = []; fields = fs }
