-- ===== src/Json/Digits/Runs.antt =====
-- `hasLongDigitRun` against the plain statement that sixteen digits stand in a row.
use fprime_gds.Base.{
  ℕ, zero, suc, ◌+◌, ◌-◌, ◌≤◌, ◌<◌, ◌≡◌, ◌≢◌, ◌↔◌, inl, inr, true, false, none, some, arith, leb,
  length, get_elem?-past, Bool-cases, leb→le,
}
use fprime_gds.Base.Text.{Text}
use fprime_gds.Json.Digits.{is_digit_at, run_low, run_high, sample_from, has_long_digit_run}

-- From unit `k` on, `n` units are digits.
abbrev pub DigitsFrom : Text → ℕ → ℕ → Type 0
DigitsFrom s k n = (j : ℕ) → j < n → is_digit_at s (k + j) ≡ true

-- Sixteen digits stand in a row somewhere.
abbrev pub LongRun : Text → Type 0
LongRun s = (k : ℕ) × DigitsFrom s k 16

pub is_digit_at-lt-length : (s : Text) (i : ℕ) → is_digit_at s i ≡ true → i < length s
unfolding is_digit_at
is_digit_at-lt-length s i h = ground (arith, get_elem?-past s i)

run_low-le : (s : Text) (i : ℕ) → run_low s i ≤ i
unfolding run_low
run_low-le s zero = omega arith
run_low-le s (suc i) = ground (arith, run_low-le s i)

run_low_digits : (s : Text) (i j : ℕ) → run_low s i ≤ j → j < i → is_digit_at s j ≡ true
unfolding run_low
run_low_digits s zero j h k = absurd (omega arith)
run_low_digits s (suc i) j h k = ground (arith, run_low_digits s i j)

run_low_stop : (s : Text) (i : ℕ) → 0 < run_low s i → is_digit_at s (run_low s i - 1) ≡ false
unfolding run_low
run_low_stop s zero h = absurd (omega arith)
run_low_stop s (suc i) h = ground (arith, run_low_stop s i)

run_high-ge : (f : ℕ) (s : Text) (i : ℕ) → i ≤ run_high f s i
unfolding run_high
run_high-ge zero s i = omega arith
run_high-ge (suc f) s i = ground (arith, run_high-ge f s (i + 1))

run_high_digits : (f : ℕ) (s : Text) (i j : ℕ) → i < j → j ≤ run_high f s i → is_digit_at s j ≡ true
unfolding run_high
run_high_digits zero s i j h k = absurd (omega arith)
run_high_digits (suc f) s i j h k = ground (arith, run_high_digits f s (i + 1) j)

run_high_stop :
    (f : ℕ) (s : Text) (i : ℕ) → length s ≤ i + f → is_digit_at s (run_high f s i + 1) ≡ false
unfolding run_high
run_high_stop zero s i h = ground (arith, is_digit_at-lt-length s (i + 1))
run_high_stop (suc f) s i h =
    ground (arith, run_high_stop f s (i + 1), is_digit_at-lt-length s (i + 1))

-- The run that holds a digit `i`, as the two inner loops find it, is the longest one.
module _ (s : Text) (i : ℕ) where
  abbrev low : ℕ
  low = run_low s i

  abbrev high : ℕ
  high = run_high (length s) s i

  run_digits : is_digit_at s i ≡ true → DigitsFrom s low (high - low + 1)
  run_digits at j h = ground (
    arith,
    run_low_digits s i (low + j),
    run_high_digits (length s) s i (low + j),
    run_low-le s i,
    run_high-ge (length s) s i,
  )

  -- A long run that reaches `i` or a later place without a break is inside it.
  long_run_inside : (k : ℕ) → DigitsFrom s k 16 → i ≤ k + 15 → k ≤ high + 1 → 16 ≤ high - low + 1
  long_run_inside k d a b = ground (
    arith,
    d (low - 1 - k),
    d (high + 1 - k),
    run_low_stop s i,
    run_high_stop (length s) s i,
    run_low-le s i,
    run_high-ge (length s) s i,
  )

sample_from_sound : (f : ℕ) (s : Text) (i : ℕ) → sample_from f s i ≡ some true → LongRun s
unfolding sample_from
sample_from_sound zero s i h = ground arith
sample_from_sound (suc f) s i h = elim (Bool-cases (is_digit_at s i)) [
  | inl at ↦ elim (Bool-cases (leb 16 (high s i - low s i + 1))) [
    | inl long ↦ (
      low s i,
      λ j lt. run_digits s i at j (omega (arith, leb→le 16 (high s i - low s i + 1) long)),
    )
    | inr short ↦ sample_from_sound f s (high s i + 16) (ground arith)
  ]
  | inr other ↦ sample_from_sound f s (i + 16) (ground arith)
]

sample_from_complete :
    (f : ℕ) (s : Text) (i k : ℕ)
    → DigitsFrom s k 16
    → i ≤ k + 15
    → length s < i + f
    → sample_from f s i ≡ some true
unfolding sample_from
sample_from_complete zero s i k d a b = ground (arith, d 15, is_digit_at-lt-length s (k + 15))
sample_from_complete (suc f) s i k d a b = ground (
  arith,
  d 15,
  d (i - k),
  is_digit_at-lt-length s (k + 15),
  long_run_inside s i k d,
  run_high-ge (length s) s i,
  run_high_stop (length s) s i,
  d (high s i + 1 - k),
  sample_from_complete f s (i + 16) k d,
  sample_from_complete f s (high s i + 16) k d,
)

sample_from_total : (f : ℕ) (s : Text) (i : ℕ) → 0 < f → length s < i + f → sample_from f s i ≢ none
unfolding sample_from
sample_from_total zero s i p b = absurd (omega arith)
sample_from_total (suc f) s i p b = ground (
  arith,
  run_high-ge (length s) s i,
  sample_from_total f s (i + 16),
  sample_from_total f s (high s i + 16),
)

-- The search ends.
pub has_long_digit_run-total : (s : Text) → has_long_digit_run s ≢ none
unfolding has_long_digit_run
has_long_digit_run-total s = sample_from_total (length s + 1) s 15 (omega arith) (omega arith)

-- The sampled search answers, and its answer is true exactly when sixteen digits stand in a row.
pub has_long_digit_run_exact :
    (s : Text) → (has_long_digit_run s ≢ none) × ((has_long_digit_run s ≡ some true) ↔ LongRun s)
unfolding has_long_digit_run
has_long_digit_run_exact s = (
  has_long_digit_run-total s,
  (
    sample_from_sound (length s + 1) s 15,
    λ r. sample_from_complete (length s + 1) s 15 r.0 r.1 (omega arith) (omega arith),
  ),
)
