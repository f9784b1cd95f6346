-- ===== src/Table/Sorting/Order.antt =====
-- static/js/vue-support/fptable.js: the sorted items are in order, and they are those that were given.
use fprime_gds.Table.{Text, ◌-ℤ◌, Bool, Binding, Table, same_column, no_column, sort_key}
use fprime_gds.Table.Sorting.{ascending, insert, sorted, sort_items}
use fprime_gds.Base.Text.{Text}
use fprime_gds.Base.Int.{◌-ℤ◌, ℤ, ltb_ℤ, pos}
use fprime_gds.Base.{
  Bool, List, ℕ, ◌∷◌, ◌≡◌, Bool-cases, arith, ◌∙◌, if◌then◌else◌, true, false, inl, ap, ◌+◌, [],
  sym, inr, refl, map,
}

-- What the comparison of keys promises: a key is not above one that is above it, nor below one that
-- is below it.
pub record IsOpposed (compare_keys : Text → Text → ℤ) : Type 0 where
  pub above :
      (j k : Text)
      → ltb_ℤ (pos 0) (compare_keys j k) ≡ true
      → ltb_ℤ (pos 0) (compare_keys k j) ≡ false
  pub below :
      (j k : Text)
      → ltb_ℤ (compare_keys j k) (pos 0) ≡ true
      → ltb_ℤ (compare_keys k j) (pos 0) ≡ false

ltb_ℤ-negated : (x : ℤ) → ltb_ℤ (pos 0) (pos 0 -ℤ x) ≡ ltb_ℤ x (pos 0)
unfolding ◌-ℤ◌
ltb_ℤ-negated x = ground arith

ascending-IsOpposed :
    (compare_keys : Text → Text → ℤ)
    → IsOpposed compare_keys
    → (asc : Bool) (j k : Text) → ltb_ℤ (pos 0) (ascending compare_keys asc j k) ≡ true
    → ltb_ℤ (pos 0) (ascending compare_keys asc k j) ≡ false
unfolding ascending
ascending-IsOpposed compare_keys o true j k h = o.above j k h
ascending-IsOpposed compare_keys o false j k h =
    ltb_ℤ-negated (compare_keys k j) ∙ o.below j k (sym (ltb_ℤ-negated (compare_keys j k)) ∙ h)

-- How often an item with the property is in the list.
unfoldable pub count_if : {A : Type 0} → (A → Bool) → List A → ℕ
count_if p [] = 0
count_if p (x ∷ xs) = (if p x then 1 else 0) + count_if p xs

count_if-map :
    {A B : Type 0} (p : A → Bool) (f : B → A) (d : List B)
    → count_if p (map f d) ≡ count_if (λ x. p (f x)) d
unfolding count_if
count_if-map p f [] = refl
count_if-map p f (x ∷ d) = ap (λ n. (if p (f x) then 1 else 0) + n) (count_if-map p f d)

module _ {A : Type 0} (compare_keys : Text → Text → ℤ) where
  -- Each item is not above the next one.
  pub Ordered : Bool → List (Text × A) → Type 0
  Ordered asc [] = Unit
  Ordered asc (x ∷ []) = Unit
  Ordered asc (x ∷ y ∷ ys) =
      (ltb_ℤ (pos 0) (ascending compare_keys asc x.0 y.0) ≡ false) × Ordered asc (y ∷ ys)

  insert-Ordered :
      IsOpposed compare_keys
      → (asc : Bool) (x : Text × A) (ys : List (Text × A)) → Ordered asc ys
      → Ordered asc (insert compare_keys asc x ys)
  unfolding insert Ordered
  insert-Ordered o asc x [] h = tt
  insert-Ordered o asc x (y ∷ []) h =
      elim (Bool-cases (ltb_ℤ (pos 0) (ascending compare_keys asc x.0 y.0))) [
        | inl e ↦ rw e (ascending-IsOpposed compare_keys o asc x.0 y.0 e, tt)
        | inr e ↦ rw e (e, tt)
      ]
  insert-Ordered o asc x (y ∷ z ∷ ys) (h, hs) =
      elim (Bool-cases (ltb_ℤ (pos 0) (ascending compare_keys asc x.0 y.0))) [
        | inl e ↦ rw e (elim (Bool-cases (ltb_ℤ (pos 0) (ascending compare_keys asc x.0 z.0))) [
          | inl q ↦ (let ih = insert-Ordered o asc x (z ∷ ys) hs in rw q (h, rw q at ih))
          | inr q ↦ rw q (ascending-IsOpposed compare_keys o asc x.0 y.0 e, (q, hs))
        ])
        | inr e ↦ rw e (e, (h, hs))
      ]

  sorted-Ordered :
      IsOpposed compare_keys
      → (asc : Bool) (xs : List (Text × A)) → Ordered asc (sorted compare_keys asc xs)
  unfolding sorted Ordered
  sorted-Ordered o asc [] = tt
  sorted-Ordered o asc (x ∷ xs) =
      insert-Ordered o asc x (sorted compare_keys asc xs) (sorted-Ordered o asc xs)

  count_if-insert :
      (p : Text × A → Bool) (asc : Bool) (x : Text × A) (ys : List (Text × A))
      → count_if p (insert compare_keys asc x ys) ≡ count_if p (x ∷ ys)
  unfolding insert count_if
  count_if-insert p asc x [] = refl
  count_if-insert p asc x (y ∷ ys) = ground (arith, count_if-insert p asc x ys)

  count_if-sorted :
      (p : Text × A → Bool) (asc : Bool) (xs : List (Text × A))
      → count_if p (sorted compare_keys asc xs) ≡ count_if p xs
  unfolding sorted count_if
  count_if-sorted p asc [] = refl
  count_if-sorted p asc (x ∷ xs) =
      count_if-insert p asc x (sorted compare_keys asc xs)
      ∙ ap (λ n. (if p x then 1 else 0) + n) (count_if-sorted p asc xs)

  -- The keys are those of the items.
  Keyed : (A → Text) → List (Text × A) → Type 0
  Keyed key [] = Unit
  Keyed key (x ∷ xs) = (x.0 ≡ key x.1) × Keyed key xs

  insert-Keyed :
      (key : A → Text) (asc : Bool) (x : Text × A) (ys : List (Text × A))
      → x.0 ≡ key x.1
      → Keyed key ys
      → Keyed key (insert compare_keys asc x ys)
  unfolding insert Keyed
  insert-Keyed key asc x [] e h = (e, tt)
  insert-Keyed key asc x (y ∷ ys) e (d, h) =
      elim (Bool-cases (ltb_ℤ (pos 0) (ascending compare_keys asc x.0 y.0))) [
        | inl q ↦ rw q (d, insert-Keyed key asc x ys e h)
        | inr q ↦ rw q (e, (d, h))
      ]

  sorted-Keyed :
      (key : A → Text) (asc : Bool) (xs : List A)
      → Keyed key (sorted compare_keys asc (map (λ x. (key x, x)) xs))
  unfolding sorted Keyed
  sorted-Keyed key asc [] = tt
  sorted-Keyed key asc (x ∷ xs) =
      insert-Keyed key asc (key x, x) (sorted compare_keys asc (map (λ x. (key x, x)) xs)) refl
        (sorted-Keyed key asc xs)

  -- Upwards the key of each item is not above that of the next one, downwards not below it.
  unfoldable pub InOrder : (A → Text) → Bool → List A → Type 0
  InOrder key asc [] = Unit
  InOrder key true (x ∷ []) = Unit
  InOrder key false (x ∷ []) = Unit
  InOrder key true (x ∷ y ∷ ys) =
      (ltb_ℤ (pos 0) (compare_keys (key x) (key y)) ≡ false) × InOrder key true (y ∷ ys)
  InOrder key false (x ∷ y ∷ ys) =
      (ltb_ℤ (compare_keys (key x) (key y)) (pos 0) ≡ false) × InOrder key false (y ∷ ys)

  undecorated :
      (key : A → Text) (asc : Bool) (d : List (Text × A))
      → Keyed key d
      → Ordered asc d
      → InOrder key asc (map (λ x. x.1) d)
  unfolding Keyed Ordered InOrder ascending
  undecorated key true [] k o = tt
  undecorated key false [] k o = tt
  undecorated key true (x ∷ []) k o = tt
  undecorated key false (x ∷ []) k o = tt
  undecorated key true (x ∷ y ∷ ys) (e, (f, k)) (o, os) =
      (rw (sym e, sym f) o, undecorated key true (y ∷ ys) (f, k) os)
  undecorated key false (x ∷ y ∷ ys) (e, (f, k)) (o, os) = (
    rw (sym e, sym f) (sym (ltb_ℤ-negated (compare_keys x.0 y.0)) ∙ o),
    undecorated key false (y ∷ ys) (f, k) os,
  )

  -- A table that is sorted by a column shows its items in the order of that column, upwards when
  -- it sorts upwards and downwards otherwise, and exactly those that it was given, each as often, where the comparison of keys
  -- keeps its promise.
  pub sort_items-InOrder :
      (b : Binding A) (t : Table) (items : List A)
      → IsOpposed compare_keys
      → same_column t.sort_column no_column ≡ false
      → InOrder (sort_key b t.sort_column) t.sort_ascending (sort_items compare_keys b t items)
        × ((p : A → Bool) → count_if p (sort_items compare_keys b t items) ≡ count_if p items)
  unfolding sort_items
  sort_items-InOrder b t items o h =
      let key = sort_key b t.sort_column in
      let d = map (λ x. (key x, x)) items in
      rw h (
        undecorated key t.sort_ascending (sorted compare_keys t.sort_ascending d)
            (sorted-Keyed key t.sort_ascending items) (sorted-Ordered o t.sort_ascending d),
        λ p.
            count_if-map p (λ x. x.1) (sorted compare_keys t.sort_ascending d)
            ∙ count_if-sorted (λ x. p x.1) t.sort_ascending d
            ∙ count_if-map (λ x. p x.1) (λ x. (key x, x)) items,
      )
