-- ===== src/Base/Decimal/RoundTrip.antt =====
-- A printed integer reads back, by BigInt.
use Prim.Native.Nat.{ℕ, zero, suc, ◌+◌, ◌*◌, ◌/◌, ◌%◌, ◌<◌}
use mathlib.Core.Path.{subst, ◌≡◌, refl, ap, sym, ◌∙◌}
use mathlib.Core.Bool.{true, false, ◌&&◌}
use mathlib.Core.Logic.{inl, inr}
use mathlib.Core.Option.{some}
use mathlib.Core.List.{[], ◌∷◌, reverse, reverse_aux, reverse-reverse}
use native.Mathlib.Omega.{arith}
use fprime_gds.Base.Tests.{ltb, leb, ◌>>=◌, Bool-cases}
use fprime_gds.Base.Text.{Text}
use fprime_gds.Base.Int.{ℤ, pos, negsuc, sub_ℕ}
use fprime_gds.Base.Decimal.{
  digits_onto, show_ℕ, show_ℤ, is_white, trim_start, trim, digit_value, digits_value, number_in,
  signed_decimal, literal, big_int,
}

digit_value-digit : (d : ℕ) → d < 10 → digit_value (b'0' + d) ≡ some d
unfolding digit_value
digit_value-digit d h = ground arith

digits_value-cons :
    (acc d : ℕ) (rest : Text)
    → d < 10
    → digits_value 10 acc ((b'0' + d) ∷ rest) ≡ digits_value 10 (acc * 10 + d) rest
unfolding digits_value
digits_value-cons acc d rest h =
    let t : ltb d 10 ≡ true = ground arith in rw (digits_value, digit_value-digit d h) (rw t refl)

digits_value-digits_onto :
    (fuel n : ℕ) (rest : Text)
    → n < fuel
    → digits_value 10 0 (digits_onto fuel n rest) ≡ digits_value 10 n rest
unfolding digits_onto
digits_value-digits_onto zero n rest h = absurd (omega arith)
digits_value-digits_onto (suc fuel) n rest h = elim (Bool-cases (ltb n 10)) [
  | inl small ↦
      let e : n % 10 ≡ n = ground arith in
      let z : 0 * 10 + n ≡ n = omega arith in
      rw (small, e) (digits_value-cons 0 n rest (ground arith) ∙ rw z refl)
  | inr large ↦ rw large (
      digits_value-digits_onto fuel (n / 10) ((b'0' + n % 10) ∷ rest) (ground arith)
      ∙ digits_value-cons (n / 10) (n % 10) rest (omega arith)
      ∙ (let e : n / 10 * 10 + n % 10 ≡ n = omega arith in rw e refl))
]

-- Digits only.
unfoldable pub AllDigits : Text → Type 0
AllDigits [] = Unit
AllDigits (c ∷ cs) = ((leb b'0' c && leb c b'9') ≡ true) × AllDigits cs

digits_onto-AllDigits :
    (fuel n : ℕ) (rest : Text) → AllDigits rest → AllDigits (digits_onto fuel n rest)
unfolding digits_onto AllDigits
digits_onto-AllDigits zero n rest h = h
digits_onto-AllDigits (suc fuel) n rest h = elim (Bool-cases (ltb n 10)) [
  | inl small ↦ rw small (ground arith, h)
  | inr large ↦
      rw large (digits_onto-AllDigits fuel (n / 10) ((b'0' + n % 10) ∷ rest) (ground arith, h))
]

is_white-digit : (c : ℕ) → (leb b'0' c && leb c b'9') ≡ true → is_white c ≡ false
unfolding is_white
is_white-digit c h = ground arith

-- Text that `trim` leaves alone: no white space at all.
unfoldable pub NoWhite : Text → Type 0
NoWhite [] = Unit
NoWhite (c ∷ cs) = (is_white c ≡ false) × NoWhite cs

AllDigits-NoWhite : (t : Text) → AllDigits t → NoWhite t
unfolding AllDigits NoWhite
AllDigits-NoWhite [] h = tt
AllDigits-NoWhite (c ∷ t) (e, h) = (is_white-digit c e, AllDigits-NoWhite t h)

trim_start-NoWhite : (t : Text) → NoWhite t → trim_start t ≡ t
unfolding trim_start NoWhite
trim_start-NoWhite [] h = refl
trim_start-NoWhite (c ∷ t) (e, h) = rw e refl

reverse_aux-NoWhite : (t r : Text) → NoWhite t → NoWhite r → NoWhite (reverse_aux t r)
unfolding NoWhite
reverse_aux-NoWhite [] r h k = k
reverse_aux-NoWhite (c ∷ t) r (e, h) k = reverse_aux-NoWhite t (c ∷ r) h (e, k)

reverse-NoWhite : (t : Text) → NoWhite t → NoWhite (reverse t)
unfolding NoWhite
reverse-NoWhite t h = reverse_aux-NoWhite t [] h tt

pub trim-NoWhite : (t : Text) → NoWhite t → trim t ≡ t
unfolding trim
trim-NoWhite t h =
    rw (trim_start-NoWhite t h, trim_start-NoWhite (reverse t) (reverse-NoWhite t h))
      (reverse-reverse t)

-- BigInt on digits alone.
literal-AllDigits :
    (c : ℕ) (cs : Text)
    → AllDigits (c ∷ cs)
    → literal (c ∷ cs) ≡ (digits_value 10 0 (c ∷ cs) >>= λ n. some (pos n))
unfolding literal signed_decimal number_in AllDigits
literal-AllDigits c [] (e, h) = ground (arith, e)
literal-AllDigits c (x ∷ cs) (e, (d, h)) = ground (arith, e, d)

digits_onto-cons :
    (fuel n c : ℕ) (cs : Text) → (d : ℕ) × (ds : Text) × (digits_onto fuel n (c ∷ cs) ≡ d ∷ ds)
unfolding digits_onto
digits_onto-cons zero n c cs = (c, cs, refl)
digits_onto-cons (suc fuel) n c cs = elim (Bool-cases (ltb n 10)) [
  | inl small ↦ (b'0' + n % 10, c ∷ cs, rw small refl)
  | inr large ↦
      let (d, ds, e) = digits_onto-cons fuel (n / 10) (b'0' + n % 10) (c ∷ cs) in
      (d, ds, rw large e)
]

-- A printed number is not empty.
pub show_ℕ-cons : (n : ℕ) → (d : ℕ) × (ds : Text) × (show_ℕ n ≡ d ∷ ds)
unfolding show_ℕ digits_onto
show_ℕ-cons n = elim (Bool-cases (ltb n 10)) [
  | inl small ↦ (b'0' + n % 10, [], rw small refl)
  | inr large ↦
      let (d, ds, e) = digits_onto-cons n (n / 10) (b'0' + n % 10) [] in (d, ds, rw large e)
]

pub show_ℕ-AllDigits : (n : ℕ) → AllDigits (show_ℕ n)
unfolding show_ℕ AllDigits
show_ℕ-AllDigits n = digits_onto-AllDigits (suc n) n [] tt

pub digits_value-show_ℕ : (n : ℕ) → digits_value 10 0 (show_ℕ n) ≡ some n
unfolding show_ℕ digits_value
digits_value-show_ℕ n = digits_value-digits_onto (suc n) n [] (omega arith)

literal-show_ℕ : (n : ℕ) → literal (show_ℕ n) ≡ some (pos n)
literal-show_ℕ n =
    let (d, ds, e) = show_ℕ-cons n in
    let a : AllDigits (d ∷ ds) = subst AllDigits e (show_ℕ-AllDigits n) in
    let v : digits_value 10 0 (d ∷ ds) ≡ some n =
      ap (digits_value 10 0) (sym e) ∙ digits_value-show_ℕ n in
    rw e (literal-AllDigits d ds a ∙ rw v refl)

number_in-show_ℕ : (n : ℕ) → number_in 10 (show_ℕ n) ≡ some n
unfolding number_in
number_in-show_ℕ n =
    let (d, ds, e) = show_ℕ-cons n in rw e (ap (digits_value 10 0) (sym e) ∙ digits_value-show_ℕ n)

literal-minus :
    (d : ℕ) (ds : Text)
    → literal (b'-' ∷ d ∷ ds) ≡ (number_in 10 (d ∷ ds) >>= λ n. some (sub_ℕ 0 n))
unfolding literal signed_decimal
literal-minus d ds = refl

is_white-dash : is_white b'-' ≡ false
unfolding is_white
is_white-dash = refl

-- A printed integer has no white space to trim.
pub trim-show_ℤ : (z : ℤ) → trim (show_ℤ z) ≡ show_ℤ z
unfolding show_ℤ NoWhite
trim-show_ℤ (pos n) = trim-NoWhite (show_ℕ n) (AllDigits-NoWhite (show_ℕ n) (show_ℕ-AllDigits n))
trim-show_ℤ (negsuc n) =
    trim-NoWhite (b'-' ∷ show_ℕ (suc n))
      (is_white-dash, AllDigits-NoWhite (show_ℕ (suc n)) (show_ℕ-AllDigits (suc n)))

literal-show_ℤ : (z : ℤ) → literal (show_ℤ z) ≡ some z
unfolding show_ℤ
literal-show_ℤ (pos n) = literal-show_ℕ n
literal-show_ℤ (negsuc n) =
    let (d, ds, e) = show_ℕ-cons (suc n) in
    ap (λ t. literal (b'-' ∷ t)) e
    ∙ literal-minus d ds
    ∙ ap (λ t. number_in 10 t >>= λ n. some (sub_ℕ 0 n)) (sym e)
    ∙ rw (number_in-show_ℕ (suc n)) (ap some (ground arith))

-- BigInt reads the integer back that String printed.
pub big_int-show_ℤ : (z : ℤ) → big_int (show_ℤ z) ≡ some z
unfolding big_int
big_int-show_ℤ z = rw (trim-show_ℤ z) (literal-show_ℤ z)

digits_onto-positive :
    (fuel n : ℕ) (rest : Text)
    → 0 < n
    → n < fuel
    → (d : ℕ) × (ds : Text) × (digits_onto fuel n rest ≡ d ∷ ds) × (b'0' < d)
unfolding digits_onto
digits_onto-positive zero n rest p h = absurd (omega arith)
digits_onto-positive (suc fuel) n rest p h = elim (Bool-cases (ltb n 10)) [
  | inl small ↦ (b'0' + n % 10, rest, rw small refl, ground arith)
  | inr large ↦
      let (d, ds, e, q) =
        digits_onto-positive fuel (n / 10) ((b'0' + n % 10) ∷ rest) (ground arith) (ground arith) in
      (d, ds, rw large e, q)
]

-- A positive number is printed without a zero in front.
pub show_ℕ-positive : (n : ℕ) → 0 < n → (d : ℕ) × (ds : Text) × (show_ℕ n ≡ d ∷ ds) × (b'0' < d)
unfolding show_ℕ
show_ℕ-positive n p = digits_onto-positive (suc n) n [] p (omega arith)
