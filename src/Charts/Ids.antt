-- ===== src/Charts/Ids.antt =====
-- static/addons/chart-display/addon.js: the ids of the charts of the page.
use fprime_gds.Base.{
  ◌∙◌, inl, inr, ◌||◌, Bool-cases, Option, List, ℕ, ◌<◌, ◌≤◌, arith, ◌==◌, ◌+◌, refl, [], ◌∷◌, ◌++◌,
  none, some, false, ◌≡◌,
}
use fprime_gds.Charts.{
  without_last, last_is_blank, split_white, Text, trim, Wrapper, ChartWrapper, add_chart,
  delete_chart, select_chart, load_charts, add_charts, has_id, without_id, with_selected,
  or_null_text,
}
use fprime_gds.Base.Text.{Text}
use fprime_gds.Base.Decimal.{trim}

-- What is done to the page; a TypeError leaves it as it was.
pub data Action : Type 0 where
  adds : Option Text → Action
  deletes : ℕ → Action
  selects : ℕ → Option Text → Action
  loads : Text → Action

or_same : ChartWrapper → Option ChartWrapper → ChartWrapper
or_same w none = w
or_same w (some v) = v

pub apply : Action → ChartWrapper → ChartWrapper
unfolding or_same
apply (adds s) w = add_chart s w
apply (deletes k) w = delete_chart k w
apply (selects k s) w = or_same w (select_chart k s w)
apply (loads t) w = load_charts t w

unfoldable pub run : List Action → ChartWrapper → ChartWrapper
unfolding apply
run [] w = w
run (a ∷ rest) w = run rest (apply a w)

-- Ids below `n`, none of them twice.
unfoldable pub Below : ℕ → List Wrapper → Type 0
Below n [] = Unit
Below n (x ∷ xs) = ((x.id < n) × (has_id x.id xs ≡ false)) × Below n xs

has_id-append :
    (k : ℕ) (xs : List Wrapper) (y : Wrapper)
    → has_id k (xs ++ y ∷ []) ≡ (has_id k xs || (y.id == k))
unfolding has_id
has_id-append k [] y = ground arith
has_id-append k (x ∷ xs) y = ground (arith, has_id-append k xs y)

Below-has_id : (n k : ℕ) (xs : List Wrapper) → Below n xs → n ≤ k → has_id k xs ≡ false
unfolding Below has_id
Below-has_id n k [] b h = refl
Below-has_id n k (x ∷ xs) ((l, e), b) h = ground (arith, l, Below-has_id n k xs b h)

Below-append :
    (n : ℕ) (xs : List Wrapper) (s : Option Text)
    → Below n xs
    → Below (n + 1) (xs ++ record { id = n; selected = s } ∷ [])
unfolding Below has_id
Below-append n [] s b = ((omega arith, refl), tt)
Below-append n (x ∷ xs) s ((l, e), b) = (
  (omega arith, has_id-append x.id xs (record { id = n; selected = s }) ∙ ground (arith, e, l)),
  Below-append n xs s b,
)

without_last-absent :
    (k : ℕ) (xs : List Wrapper) → has_id k xs ≡ false → has_id k (without_last xs) ≡ false
unfolding without_last has_id
without_last-absent k [] h = refl
without_last-absent k (x ∷ []) h = refl
without_last-absent k (x ∷ y ∷ xs) h = ground (arith, h, without_last-absent k (y ∷ xs))

without_last-Below : (n : ℕ) (xs : List Wrapper) → Below n xs → Below n (without_last xs)
unfolding without_last Below
without_last-Below n [] b = tt
without_last-Below n (x ∷ []) b = tt
without_last-Below n (x ∷ y ∷ xs) ((l, e), b) =
    ((l, without_last-absent x.id (y ∷ xs) e), without_last-Below n (y ∷ xs) b)

without_id-absent :
    (k j : ℕ) (xs : List Wrapper) → has_id k xs ≡ false → has_id k (without_id j xs) ≡ false
unfolding without_id has_id
without_id-absent k j [] h = refl
without_id-absent k j (x ∷ xs) h = ground (arith, h, without_id-absent k j xs)

without_id-Below : (n j : ℕ) (xs : List Wrapper) → Below n xs → Below n (without_id j xs)
unfolding without_id Below
without_id-Below n j [] b = tt
without_id-Below n j (x ∷ xs) ((l, e), b) = elim (Bool-cases (x.id == j)) [
  | inl h ↦ rw h b
  | inr h ↦ rw h ((l, without_id-absent x.id j xs e), without_id-Below n j xs b)
]

with_selected-has_id :
    (k j : ℕ) (s : Option Text) (xs : List Wrapper) → has_id k (with_selected j s xs) ≡ has_id k xs
unfolding with_selected has_id
with_selected-has_id k j s [] = refl
with_selected-has_id k j s (x ∷ xs) = ground (arith, with_selected-has_id k j s xs)

with_selected-Below :
    (n j : ℕ) (s : Option Text) (xs : List Wrapper) → Below n xs → Below n (with_selected j s xs)
unfolding with_selected Below
with_selected-Below n j s [] b = tt
with_selected-Below n j s (x ∷ xs) ((l, e), b) = elim (Bool-cases (x.id == j)) [
  | inl h ↦ rw h ((l, e), b)
  | inr h ↦ rw h ((l, with_selected-has_id x.id j s xs ∙ e), with_selected-Below n j s xs b)
]

add_charts-Below :
    (ts : List Text) (w : ChartWrapper)
    → Below w.counter w.wrappers
    → Below (add_charts ts w).counter (add_charts ts w).wrappers
unfolding add_charts add_chart
add_charts-Below [] w b = b
add_charts-Below (t ∷ ts) w b =
    add_charts-Below ts (add_chart (some (trim t)) w)
      (Below-append w.counter w.wrappers (or_null_text (some (trim t))) b)

apply-Below :
    (a : Action) (w : ChartWrapper)
    → Below w.counter w.wrappers
    → Below (apply a w).counter (apply a w).wrappers
unfolding apply add_chart delete_chart select_chart load_charts or_same
apply-Below (adds s) w b = Below-append w.counter w.wrappers (or_null_text s) b
apply-Below (deletes k) w b = elim (Bool-cases (has_id k w.wrappers)) [
  | inl h ↦ rw h (without_id-Below w.counter k w.wrappers b)
  | inr h ↦ rw h (without_last-Below w.counter w.wrappers b)
]
apply-Below (selects k s) w b = elim (Bool-cases (has_id k w.wrappers)) [
  | inl h ↦ rw h (with_selected-Below w.counter k s w.wrappers b)
  | inr h ↦ rw h b
]
apply-Below (loads t) w b = elim (Bool-cases (last_is_blank w.wrappers)) [
  | inl h ↦ rw h (add_charts-Below (split_white t) _ (without_last-Below w.counter w.wrappers b))
  | inr h ↦ rw h (add_charts-Below (split_white t) _ b)
]

-- Whatever is added, deleted, selected and loaded, the charts of the page have ids below the
-- counter, and no two of them have the same.
pub run-Below :
    (actions : List Action) (w : ChartWrapper)
    → Below w.counter w.wrappers
    → Below (run actions w).counter (run actions w).wrappers
unfolding run
run-Below [] w b = b
run-Below (a ∷ rest) w b = run-Below rest (apply a w) (apply-Below a w b)
