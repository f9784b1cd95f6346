-- ===== src/Validate/Access.antt =====
-- The fields of a compound value under `find_field` and `set_field`.
use fprime_gds.Base.{Option, ◌≡◌, some, true, if◌then◌else◌, arith, ap, none}
use fprime_gds.Validate.{
  end, field, token_eq, Argument, find_field, Token, set_field, Fields, field, member, element,
}
use fprime_gds.Base.Text.{text_eq_self, text_eq_sound}

pub token_eq_sound : (t u : Token) → token_eq t u ≡ true → t ≡ u
unfolding token_eq
token_eq_sound (member s) (member t) h = ap member (text_eq_sound s t h)
token_eq_sound (element i) (element j) h = ground arith
token_eq_sound (member s) (element j) h = cc
token_eq_sound (element i) (member t) h = cc

pub token_eq_self : (t : Token) → token_eq t t ≡ true
unfolding token_eq
token_eq_self (member s) = text_eq_self s
token_eq_self (element i) = ground arith

abbrev pub replaced : Argument → Option Argument → Option Argument
replaced a none = none
replaced a (some b) = some a

pub find_field-set_field :
    (t u : Token) (a : Argument) (fs : Fields)
    → find_field t (set_field u a fs)
      ≡ (if token_eq t u then replaced a (find_field t fs) else find_field t fs)
unfolding find_field set_field
find_field-set_field t u a end = ground arith
find_field-set_field t u a (field w b fs) = ground (
  arith,
  find_field-set_field t u a fs,
  token_eq_sound u w,
  token_eq_sound t u,
  token_eq_sound t w,
  token_eq_self t,
  token_eq_self u,
)

-- Setting what is there changes nothing.
pub set_field_same :
    (t : Token) (a : Argument) (fs : Fields) → find_field t fs ≡ some a → set_field t a fs ≡ fs
unfolding find_field set_field
set_field_same t a end h = cc
set_field_same t a (field u b fs) h = ground (arith, set_field_same t a fs)
