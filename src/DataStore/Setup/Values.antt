-- ===== src/DataStore/Setup/Values.antt =====
-- static/js/datastore.js: where setupCommandArgument takes the values of arguments from.
use mathlib.Core.Path.{subst}
use fprime_gds.Base.{
  some_same, refl, none, some, ◌≡◌, List, Option, Bool, ℕ, [], ◌∷◌, zero, suc, true, false, ap,
  Option-cases, Bool-cases, inl, inr,
}
use fprime_gds.Json.Values.{
  JsonValue, Elements, Members, find_json, json_null, no_elements, json_array, json_truth,
  element_then, json_number, json_string, nearest, json_big, json_object, decimal, minus_zero,
  not_a_number, plus_infinity, minus_infinity,
}
use fprime_gds.Commanding.Select.{last_token}
use fprime_gds.DataStore.Setup.{
  or_null, number_or_null, enum_value, default_or_first, first_name, array_values, default_elements,
  copies_of, or_default, supplied,
}
use fprime_gds.Base.Text.{Text}
use fprime_gds.Base.Int.{pos, negsuc}

-- What `||` passes over; `is_zero` tells which decimal texts read as 0.
pub data Falsy (is_zero : Text → Bool) : JsonValue → Type 0 where
  of_null : Falsy is_zero json_null
  of_false : Falsy is_zero (json_truth false)
  of_zero : Falsy is_zero (json_number (nearest (pos 0)))
  of_decimal : {t : Text} → is_zero t ≡ true → Falsy is_zero (json_number (decimal t))
  of_minus_zero : Falsy is_zero (json_number minus_zero)
  of_nan : Falsy is_zero (json_number not_a_number)
  of_big : Falsy is_zero (json_big (pos 0))
  of_empty : Falsy is_zero (json_string [])

-- value || null
pub data OrNull (is_zero : Text → Bool) (v : JsonValue) : JsonValue → Type 0 where
  passed_over : Falsy is_zero v → OrNull is_zero v json_null
  kept : (Falsy is_zero v → ⊥) → OrNull is_zero v v

pub or_null-OrNull : (is_zero : Text → Bool) (v : JsonValue) → OrNull is_zero v (or_null is_zero v)
unfolding or_null number_or_null
or_null-OrNull z json_null = passed_over of_null
or_null-OrNull z (json_truth true) = kept λ f. elim f [ ]
or_null-OrNull z (json_truth false) = passed_over of_false
or_null-OrNull z (json_number (nearest (pos zero))) = passed_over of_zero
or_null-OrNull z (json_number (nearest (pos (suc n)))) = kept λ f. elim f [ ]
or_null-OrNull z (json_number (nearest (negsuc n))) = kept λ f. elim f [ ]
or_null-OrNull z (json_number (decimal t)) = elim (Bool-cases (z t)) [
  | inl e ↦ rw e (passed_over (of_decimal e))
  | inr e ↦ rw e (kept λ f. elim f [ of_decimal d ↦ cc ])
]
or_null-OrNull z (json_number minus_zero) = passed_over of_minus_zero
or_null-OrNull z (json_number not_a_number) = passed_over of_nan
or_null-OrNull z (json_number plus_infinity) = kept λ f. elim f [ ]
or_null-OrNull z (json_number minus_infinity) = kept λ f. elim f [ ]
or_null-OrNull z (json_big (pos zero)) = passed_over of_big
or_null-OrNull z (json_big (pos (suc n))) = kept λ f. elim f [ ]
or_null-OrNull z (json_big (negsuc n)) = kept λ f. elim f [ ]
or_null-OrNull z (json_string []) = passed_over of_empty
or_null-OrNull z (json_string (c ∷ cs)) = kept λ f. elim f [ ]
or_null-OrNull z (json_array es) = kept λ f. elim f [ ]
or_null-OrNull z (json_object ms) = kept λ f. elim f [ ]

-- A value of another kind.
unfoldable pub NotNull : JsonValue → Type 0
NotNull json_null = ⊥
NotNull v = Unit

unfoldable pub NotText : JsonValue → Type 0
NotText (json_string t) = ⊥
NotText v = Unit

unfoldable pub NotArray : JsonValue → Type 0
NotArray (json_array es) = ⊥
NotArray v = Unit

-- The value of an enumeration, for its keys and its DEFAULT: the end of the text that is supplied, or
-- else the DEFAULT, or else the first key, or else null.
pub data EnumValue (keys : List Text) (d : Option JsonValue) : JsonValue → JsonValue → Type 0 where
  by_text : {t : Text} → EnumValue keys d (json_string t) (json_string (last_token t))
  by_default : {v w : JsonValue} → NotText v → d ≡ some w → NotNull w → EnumValue keys d v w
  by_key :
      {v : JsonValue} {k : Text} {ks : List Text}
      → NotText v
      → ((w : JsonValue) → d ≡ some w → w ≡ json_null)
      → keys ≡ k ∷ ks
      → EnumValue keys d v (json_string k)
  by_nothing :
      {v : JsonValue}
      → NotText v
      → ((w : JsonValue) → d ≡ some w → w ≡ json_null)
      → keys ≡ []
      → EnumValue keys d v json_null

keyed-EnumValue :
    (keys : List Text) (d : Option JsonValue) (v : JsonValue)
    → NotText v
    → ((w : JsonValue) → d ≡ some w → w ≡ json_null)
    → EnumValue keys d v (first_name keys)
unfolding first_name
keyed-EnumValue [] d v n h = by_nothing n h refl
keyed-EnumValue (k ∷ ks) d v n h = by_key n h refl

default-EnumValue :
    (keys : List Text) (d : Option JsonValue) (v : JsonValue)
    → NotText v
    → EnumValue keys d v (default_or_first keys d)
unfolding default_or_first NotNull
default-EnumValue keys none v n = keyed-EnumValue keys none v n (λ w e. absurd cc)
default-EnumValue keys (some json_null) v n = keyed-EnumValue keys (some json_null) v n (λ w e. cc)
default-EnumValue keys (some (json_truth b)) v n = by_default n refl tt
default-EnumValue keys (some (json_number b)) v n = by_default n refl tt
default-EnumValue keys (some (json_big b)) v n = by_default n refl tt
default-EnumValue keys (some (json_string b)) v n = by_default n refl tt
default-EnumValue keys (some (json_array b)) v n = by_default n refl tt
default-EnumValue keys (some (json_object b)) v n = by_default n refl tt

pub enum_value-EnumValue :
    (keys : List Text) (d : Option JsonValue) (v : JsonValue)
    → EnumValue keys d v (enum_value keys d v)
unfolding enum_value NotText
enum_value-EnumValue keys d (json_string t) = by_text
enum_value-EnumValue keys d json_null = default-EnumValue keys d json_null tt
enum_value-EnumValue keys d (json_truth b) = default-EnumValue keys d (json_truth b) tt
enum_value-EnumValue keys d (json_number b) = default-EnumValue keys d (json_number b) tt
enum_value-EnumValue keys d (json_big b) = default-EnumValue keys d (json_big b) tt
enum_value-EnumValue keys d (json_array b) = default-EnumValue keys d (json_array b) tt
enum_value-EnumValue keys d (json_object b) = default-EnumValue keys d (json_object b) tt

unfoldable pub elements_length : Elements → ℕ
elements_length no_elements = 0
elements_length (element_then v es) = suc (elements_length es)

-- Each element is the value.
unfoldable pub AllAre : JsonValue → Elements → Type 0
AllAre v no_elements = Unit
AllAre v (element_then w es) = (w ≡ v) × AllAre v es

-- The values of an array, for its LENGTH and its DEFAULT: those of the array that is supplied, or else
-- those of DEFAULT, or else as many of the value that is supplied as LENGTH.
pub data ArrayValues (n : ℕ) (d : Option JsonValue) : JsonValue → Elements → Type 0 where
  by_array : {es : Elements} → ArrayValues n d (json_array es) es
  by_default_array :
      {v : JsonValue} {es : Elements} → NotArray v → d ≡ some (json_array es) → ArrayValues n d v es
  by_value :
      {v : JsonValue} {es : Elements}
      → NotArray v
      → ((w : JsonValue) → d ≡ some w → NotArray w)
      → elements_length es ≡ n
      → AllAre v es
      → ArrayValues n d v es

copies_of-AllAre :
    (n : ℕ) (v : JsonValue) → (elements_length (copies_of n v) ≡ n) × AllAre v (copies_of n v)
unfolding copies_of elements_length AllAre
copies_of-AllAre zero v = (refl, tt)
copies_of-AllAre (suc n) v = let (l, a) = copies_of-AllAre n v in (ap (λ k. suc k) l, (refl, a))

copied-ArrayValues :
    (n : ℕ) (d : Option JsonValue) (v : JsonValue)
    → NotArray v
    → ((w : JsonValue) → d ≡ some w → NotArray w)
    → ArrayValues n d v (copies_of n v)
copied-ArrayValues n d v k h = let (l, a) = copies_of-AllAre n v in by_value k h l a

default-ArrayValues :
    (n : ℕ) (d : Option JsonValue) (v : JsonValue)
    → NotArray v
    → ArrayValues n d v (default_elements n d v)
unfolding default_elements NotArray
default-ArrayValues n none v k = copied-ArrayValues n none v k (λ w e. absurd cc)
default-ArrayValues n (some (json_array es)) v k = by_default_array k refl
default-ArrayValues n (some json_null) v k =
    copied-ArrayValues n (some json_null) v k (λ w e. subst NotArray (some_same e) tt)
default-ArrayValues n (some (json_truth b)) v k =
    copied-ArrayValues n (some (json_truth b)) v k (λ w e. subst NotArray (some_same e) tt)
default-ArrayValues n (some (json_number b)) v k =
    copied-ArrayValues n (some (json_number b)) v k (λ w e. subst NotArray (some_same e) tt)
default-ArrayValues n (some (json_big b)) v k =
    copied-ArrayValues n (some (json_big b)) v k (λ w e. subst NotArray (some_same e) tt)
default-ArrayValues n (some (json_string b)) v k =
    copied-ArrayValues n (some (json_string b)) v k (λ w e. subst NotArray (some_same e) tt)
default-ArrayValues n (some (json_object b)) v k =
    copied-ArrayValues n (some (json_object b)) v k (λ w e. subst NotArray (some_same e) tt)

pub array_values-ArrayValues :
    (n : ℕ) (d : Option JsonValue) (v : JsonValue) → ArrayValues n d v (array_values n d v)
unfolding array_values NotArray
array_values-ArrayValues n d (json_array es) = by_array
array_values-ArrayValues n d json_null = default-ArrayValues n d json_null tt
array_values-ArrayValues n d (json_truth b) = default-ArrayValues n d (json_truth b) tt
array_values-ArrayValues n d (json_number b) = default-ArrayValues n d (json_number b) tt
array_values-ArrayValues n d (json_big b) = default-ArrayValues n d (json_big b) tt
array_values-ArrayValues n d (json_string b) = default-ArrayValues n d (json_string b) tt
array_values-ArrayValues n d (json_object b) = default-ArrayValues n d (json_object b) tt

-- The value that is supplied has no member `m`.
unfoldable pub LacksMember : Text → JsonValue → Type 0
LacksMember m (json_object ms) = find_json m ms ≡ none
LacksMember m v = Unit

-- The value of the member `m`, for the DEFAULT of the structure: that of the object that is supplied,
-- or else that of DEFAULT, or else null.
pub data MemberValue (m : Text) (d : Members) : JsonValue → JsonValue → Type 0 where
  by_member :
      {ms : Members} {w : JsonValue} → find_json m ms ≡ some w → MemberValue m d (json_object ms) w
  by_default_member :
      {v w : JsonValue} → LacksMember m v → find_json m d ≡ some w → MemberValue m d v w
  by_null : {v : JsonValue} → LacksMember m v → find_json m d ≡ none → MemberValue m d v json_null

default-MemberValue :
    (m : Text) (d : Members) (v : JsonValue)
    → LacksMember m v
    → MemberValue m d v (or_default none (find_json m d))
unfolding or_default
default-MemberValue m d v h = elim (Option-cases (find_json m d)) [
  | inl e ↦ rw e (by_null h e)
  | inr (w, e) ↦ rw e (by_default_member h e)
]

pub or_default-MemberValue :
    (m : Text) (d : Members) (v : JsonValue)
    → MemberValue m d v (or_default (supplied m v) (find_json m d))
unfolding or_default supplied LacksMember
or_default-MemberValue m d (json_object ms) = elim (Option-cases (find_json m ms)) [
  | inl e ↦ rw e (default-MemberValue m d (json_object ms) e)
  | inr (w, e) ↦ rw e (by_member e)
]
or_default-MemberValue m d json_null = default-MemberValue m d json_null tt
or_default-MemberValue m d (json_truth b) = default-MemberValue m d (json_truth b) tt
or_default-MemberValue m d (json_number b) = default-MemberValue m d (json_number b) tt
or_default-MemberValue m d (json_big b) = default-MemberValue m d (json_big b) tt
or_default-MemberValue m d (json_string b) = default-MemberValue m d (json_string b) tt
or_default-MemberValue m d (json_array b) = default-MemberValue m d (json_array b) tt
