-- ===== src/Json/Scan/Clean.antt =====
-- A text with no gate token and no long run of digits passes the scan as it is.
use Prim.Native.Nat.add
use fprime_gds.Base.Text.{Text, substring}
use fprime_gds.Json.Scan.{
  number_units, decimal, unsigned, scan_number_token, is_unsafe_integer, match_gate_token,
  scan_step, scan_from, scan_and_replace, gate_or_number, Scan, finish, scan_number, started,
}
use fprime_gds.Json.Digits.{is_digit_at, is_digit}
use fprime_gds.Json.Digits.Runs.{DigitsFrom, LongRun}
use fprime_gds.Base.{
  refl, ℕ, Bool, ◌<◌, ◌≡◌, true, ◌≤◌, arith, suc, zero, ◌+◌, length, ◌∷◌, [], false, Option-cases,
  take, get_elem?, ◌*◌, inl, drop, some, inr, if◌then◌else◌, ◌==◌, ◌-◌, Bool-cases, drop-cons,
  dec_lt, length-take, none,
}
use fprime_gds.Json.Scan.Progress.{scan_number_token-ge, scan_and_replace-total}

-- A token that is not integral stays so.
number_units_flag : (f : ℕ) (s : Text) (i : ℕ) → (number_units f s i false).is_integer ≡ false
unfolding number_units
number_units_flag zero s i = refl
number_units_flag (suc f) s i = ground (arith, number_units_flag f s (i + 1))

-- What stays integral consists of digits.
number_units_integer :
    (f : ℕ) (s : Text) (i j : ℕ) (b : Bool)
    → (number_units f s i b).is_integer ≡ true
    → i ≤ j
    → j < (number_units f s i b).end
    → is_digit_at s j ≡ true
unfolding number_units is_digit_at
number_units_integer zero s i j b h a c = absurd (omega arith)
number_units_integer (suc f) s i j b h a c = elim (Option-cases (get_elem? s i)) [
  | inl e ↦ ground arith
  | inr (x, e) ↦ ground (
    arith,
    number_units_integer f s (i + 1) j b,
    number_units_integer f s (i + 1) j false,
    number_units_flag f s (i + 1),
  )
]

abbrev AllDigits : Text → Type 0
AllDigits [] = Unit
AllDigits (c ∷ cs) = (is_digit c ≡ true) × AllDigits cs

abbrev scale : ℕ → ℕ
scale zero = 1
scale (suc n) = 10 * scale n

scale-pos : (n : ℕ) → 0 < scale n
scale-pos zero = omega arith
scale-pos (suc n) = omega (arith, scale-pos n)

mul_le : (a b c : ℕ) → a ≤ b → a * c ≤ b * c
mul_le a b c h = grind arith

decimal-lt :
    (acc n : ℕ) (t : Text) → AllDigits t → length t ≤ n → decimal acc t + 1 ≤ (acc + 1) * scale n
unfolding decimal is_digit
decimal-lt acc n [] d h = grind (arith, scale-pos n)
decimal-lt acc zero (c ∷ t) d h = absurd (omega arith)
decimal-lt acc (suc n) (c ∷ t) d h = grind (
  arith,
  decimal-lt (acc * 10 + (c - 48)) n t d.1 (omega arith),
  mul_le (acc * 10 + (c - 48) + 1) ((acc + 1) * 10) (scale n),
)

AllDigits-substring : (s : Text) (k n : ℕ) → DigitsFrom s k n → AllDigits (take n (drop k s))
unfolding is_digit_at
AllDigits-substring s k zero d = tt
AllDigits-substring [] zero (suc n) d = tt
AllDigits-substring [] (suc k) (suc n) d = tt
AllDigits-substring (c ∷ s) zero (suc n) d = (
  d 0 (omega arith),
  AllDigits-substring s zero n (λ j h. rw add.zero (rw add.zero at (d (suc j) (omega arith)))),
)
AllDigits-substring (c ∷ s) (suc k) (suc n) d =
    AllDigits-substring s k (suc n) (λ j h. rw add.suc at (d j h))

-- The text of a token without its sign.
unsigned-substring :
    (s : Text) (start end : ℕ) {c : ℕ}
    → get_elem? s start ≡ some c
    → start < end
    → unsigned (substring s start end) ≡ substring s (if c == b'-' then start + 1 else start) end
unfolding unsigned
unsigned-substring s start end {c} e h = elim (Bool-cases (c == b'-')) [
  | inl minus ↦ rw (minus, drop-cons s start e, width) (rw minus)
  | inr other ↦ rw (other, drop-cons s start e, width) (rw other)
]
  where
    width : end - start ≡ suc (end - (start + 1))
    width = omega arith

-- The sign, if there is one, is in front of the number.
abbrev body : ℕ → ℕ → ℕ
body c start = if c == b'-' then start + 1 else start

module _ (s : Text) (start c : ℕ) (at : get_elem? s start ≡ some c) (short : LongRun s → ⊥) where
  abbrev scan_end : ℕ
  scan_end = (scan_number_token s (body c start)).end

  -- An integral token of fewer than sixteen digits is safe.
  safe_token :
      start < scan_end
      → is_unsafe_integer
          (scan_number_token s (body c start)).is_integer
          (substring s start scan_end)
        ≡ false
  unfolding is_unsafe_integer scan_number_token
  safe_token lt = elim (Bool-cases (scan_number_token s (body c start)).is_integer) [
    | inr no_int ↦ rw no_int
    | inl int ↦ elim (dec_lt 15 (scan_end - body c start)) [
      | yes long ↦ absurd (
          short (
            body c start,
            λ j h.
                number_units_integer (length s) s (body c start) (body c start + j) true int
                  (omega arith) (omega arith),
          ))
      | no few ↦ ground (
        arith,
        unsigned-substring s start scan_end at lt,
        decimal-lt 0 15 (substring s (body c start) scan_end)
            (AllDigits-substring s (body c start) (scan_end - body c start) (λ j h.
              number_units_integer (length s) s (body c start) (body c start + j) true int
                (omega arith) (omega arith)))
            (omega (arith, length-take (scan_end - body c start) (drop (body c start) s))),
      )
    ]
  ]

module _ (s : Text) (no_gate : (i : ℕ) → match_gate_token s i ≡ none) (short : LongRun s → ⊥) where
  scan_step-clean : (c i : ℕ) (st : Scan) → get_elem? s i ≡ some c → (scan_step s c i st).1 ≡ st
  unfolding scan_step gate_or_number scan_number
  scan_step-clean c i st at = elim (Bool-cases (c == b'-')) [
    | inl minus ↦
        ground (arith, no_gate (i + 1), safe_token s i c at short, scan_number_token-ge s (i + 1))
    | inr other ↦ ground (arith, no_gate i, safe_token s i c at short, scan_number_token-ge s i)
  ]

  scan_from-clean : (f : ℕ) (i : ℕ) (st r : Scan) → scan_from f s i st ≡ some r → r ≡ st
  unfolding scan_from
  scan_from-clean zero i st r h = ground arith
  scan_from-clean (suc f) i st r h = elim (Option-cases (get_elem? s i)) [
    | inl e ↦ ground arith
    | inr (c, e) ↦ ground (
      arith,
      scan_step-clean c i st e,
      scan_from-clean f (scan_step s c i st).0 (scan_step s c i st).1 r,
    )
  ]

  -- The scan returns such a text as it is.
  pub scan_and_replace_clean : scan_and_replace s ≡ some s
  unfolding scan_and_replace finish
  scan_and_replace_clean = elim (Option-cases (scan_from (length s + 1) s 0 started)) [
    | inl e ↦ absurd (scan_and_replace-total s (ground arith))
    | inr (r, e) ↦ ground (arith, scan_from-clean (length s + 1) 0 started r e)
  ]
