-- ===== src/Validate/Scalar.antt =====
-- What the validation of a scalar accepts, and that a second one changes nothing.
use fprime_gds.Base.{
  Option, ◌≡◌, none, some, ◌↔◌, arith, List, Option-cases, inr, inl, Bool-cases, ◌≢◌,
}
use fprime_gds.Base.Text.{Text, includes, codes}
use fprime_gds.Validate.{
  validate_scalar_input, in_limits, ScalarType, Limits, Verdict, scalar, type_limits, without_type,
  passed, ℤ, integer_value, validate_enum_input, validate_integer, validate_other, enum_or_other,
  enum_answer, integer_or_other, find_case_insensitive, CompoundType, Fields, compound,
}
use fprime_gds.Base.Int.{ℤ, ◌≤ℤ◌}
use fprime_gds.Validate.Names.{find_case_insensitive_idem}

module _ (lower : Text → Text) where
  -- An integer argument passes exactly when BigInt reads its value and the value is within the
  -- limits of its type.
  pub integer_passes :
      (t : ScalarType) (l : Limits) (value : Option Text) (error : Text)
      → t.enum_dict ≡ none
      → type_limits (without_type t.name) ≡ some l
      → ((validate_scalar_input lower t value error).0 ≡ passed)
        ↔ ((v : ℤ) × (integer_value value ≡ some v) × (l.lowest ≤ℤ v) × (v ≤ℤ l.highest))
  unfolding validate_scalar_input enum_or_other integer_or_other validate_integer in_limits
  integer_passes t l value error n e = elim (Option-cases (integer_value value)) [
    | inl m ↦ ground arith
    | inr (v, m) ↦ (λ p. (v, m, ground arith, ground arith), λ q. ground arith)
  ]

  enum_idem :
      (t t' : ScalarType) (possible : List Text) (value value' : Option Text) (error' : Text)
      (v : Verdict)
      → validate_enum_input lower t possible value ≡ (v, scalar t' value' error')
      → (t' ≡ t) × (validate_enum_input lower t possible value' ≡ (v, scalar t value' error'))
  unfolding validate_enum_input enum_answer
  enum_idem t t' possible value value' error' v h =
      elim (Option-cases (find_case_insensitive lower value possible)) [
        | inl e ↦ ground arith
        | inr (r, e) ↦ ground (arith, find_case_insensitive_idem lower value possible r e)
      ]

  integer_idem :
      (t t' : ScalarType) (l : Limits) (value value' : Option Text) (error' : Text) (v : Verdict)
      → validate_integer lower t l value ≡ (v, scalar t' value' error')
      → (t' ≡ t) × (validate_integer lower t l value' ≡ (v, scalar t value' error'))
  unfolding validate_integer
  integer_idem t t' l value value' error' v h = ground arith

  other_idem :
      (t t' : ScalarType) (value value' : Option Text) (error error' : Text) (v : Verdict)
      → validate_other lower t value error ≡ (v, scalar t' value' error')
      → (t' ≡ t) × (validate_other lower t value' error' ≡ (v, scalar t value' error'))
  unfolding validate_other
  other_idem t t' value value' error error' v h =
      elim (Bool-cases (includes (codes "String") t.name)) [
        | inl e ↦ ground arith
        | inr e ↦ ground arith
      ]

  -- A second validation answers as the first did, and changes nothing.
  pub validate_scalar_input_idem :
      (t t' : ScalarType) (value value' : Option Text) (error error' : Text) (v : Verdict)
      → validate_scalar_input lower t value error ≡ (v, scalar t' value' error')
      → (t' ≡ t) × (validate_scalar_input lower t value' error' ≡ (v, scalar t value' error'))
  unfolding validate_scalar_input enum_or_other integer_or_other
  validate_scalar_input_idem t t' value value' error error' v h = elim (Option-cases t.enum_dict) [
    | inr (possible, e) ↦ ground (arith, enum_idem t t' possible value value' error' v)
    | inl e ↦ elim (Option-cases (type_limits (without_type t.name))) [
      | inl m ↦ ground (arith, other_idem t t' value value' error error' v)
      | inr (l, m) ↦ ground (arith, integer_idem t t' l value value' error' v)
    ]
  ]

  other-ne-compound :
      (t : ScalarType) (u : CompoundType) (value : Option Text) (error e : Text) (fs : Fields)
      (v : Verdict)
      → validate_other lower t value error ≢ (v, compound u fs e)
  unfolding validate_other
  other-ne-compound t u value error e fs v = ground arith

  -- The argument of a scalar stays a scalar.
  pub validate_scalar_input-ne-compound :
      (t : ScalarType) (u : CompoundType) (value : Option Text) (error e : Text) (fs : Fields)
      (v : Verdict)
      → validate_scalar_input lower t value error ≢ (v, compound u fs e)
  unfolding validate_scalar_input enum_or_other integer_or_other validate_integer
      validate_enum_input enum_answer
  validate_scalar_input-ne-compound t u value error e fs v = elim (Option-cases t.enum_dict) [
    | inr (possible, m) ↦ ground arith
    | inl m ↦ elim (Option-cases (type_limits (without_type t.name))) [
      | inl n ↦ ground (arith, other-ne-compound t u value error e fs v)
      | inr (l, n) ↦ ground arith
    ]
  ]
