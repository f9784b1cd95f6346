-- ===== src/Monitor/Counts.antt =====
-- static/js/validate.js: the counts of drops and of items.
use fprime_gds.Base.{
  sym, refl, inr, List, ℕ, ◌≡◌, Option, some, ◌∷◌, if◌then◌else◌, ◌+◌, arith, suc, [], Bool-cases,
  ◌∙◌, none, inl, ap,
}
use fprime_gds.Monitor.{
  LoadValidator, update_dropped, count_of, count_item, count_items, counted_key, has_key,
  or_else_number, or_zero, List, Text, pos,
}
use fprime_gds.Base.Store.{find_key, set_key, find_key-set_key_self, find_key-set_key_ne}
use fprime_gds.Base.Text.{Text, text_eq, text_eq_sound, text_eq_self}
use fprime_gds.Base.Int.{pos, ◌-ℤ◌}

-- The responses to any endpoints: key, number of items, token.
abbrev pub Answers : Type 0
Answers = List (Text × ℕ × Option ℕ)

unfoldable pub update_dropped_all : Answers → LoadValidator → LoadValidator
update_dropped_all [] v = v
update_dropped_all ((k, n, t) ∷ rs) v = update_dropped_all rs (update_dropped k n t v)

-- The items that came for `k`.
unfoldable pub received : Text → Answers → ℕ
received k [] = 0
received k ((l, n, t) ∷ rs) = if text_eq l k then n + received k rs else received k rs

pub count_of-set_key :
    (k l : Text) (n : ℕ) (m : List (Text × ℕ))
    → count_of l (set_key k n m) ≡ (if text_eq k l then n else count_of l m)
unfolding count_of or_zero
count_of-set_key k l n m = elim (Bool-cases (text_eq k l)) [
  | inl e ↦
      let d : k ≡ l = text_eq_sound k l e in
      rw e (ap or_zero (ap (λ j. find_key j (set_key k n m)) (sym d) ∙ find_key-set_key_self k n m))
  | inr e ↦ rw e (ap or_zero (find_key-set_key_ne k l n m e))
]

update_dropped_all-counts :
    (k : Text) (rs : Answers) (v : LoadValidator)
    → count_of k (update_dropped_all rs v).validation_counts
      ≡ count_of k v.validation_counts + received k rs
unfolding update_dropped_all received update_dropped
update_dropped_all-counts k [] v = omega arith
update_dropped_all-counts k ((l, n, t) ∷ rs) v =
    update_dropped_all-counts k rs (update_dropped l n t v)
    ∙ rw (count_of-set_key l k (count_of l v.validation_counts + n) v.validation_counts)
        (elim (Bool-cases (text_eq l k)) [
          | inl e ↦
              let d : count_of l v.validation_counts ≡ count_of k v.validation_counts =
                ap (λ j. count_of j v.validation_counts) (text_eq_sound l k e) in
              rw (e, d) (omega arith)
          | inr e ↦ rw e refl
        ])

-- Whatever responses of this and other endpoints came before, a response that carries the number
-- of the server, which is not 0, sets the drops of its endpoint to that number less all items
-- counted so far.
pub update_dropped-exact :
    (rs : Answers) (k : Text) (n t : ℕ) (v : LoadValidator)
    → find_key k (update_dropped k n (some (suc t)) (update_dropped_all rs v)).dropped
      ≡ some (pos (suc t) -ℤ pos (count_of k v.validation_counts + received k rs + n))
unfolding update_dropped or_else_number
update_dropped-exact rs k n t v =
    find_key-set_key_self k
      (pos (suc t) -ℤ pos (count_of k (update_dropped_all rs v).validation_counts + n))
      (update_dropped_all rs v).dropped
    ∙ rw (update_dropped_all-counts k rs v) refl

-- The items whose field gives the key `k`.
unfoldable pub with_key : (Text → Option Text) → Text → List (Option Text) → ℕ
unfolding counted_key
with_key transformer k [] = 0
with_key transformer k (none ∷ fs) = with_key transformer k fs
with_key transformer k (some f ∷ fs) =
    let rest = with_key transformer k fs in
    if text_eq (counted_key (transformer f)) k then suc rest else rest

count_key :
    (j k : Text) (initials counts : List (Text × ℕ))
    → count_of k (if has_key j initials then set_key j (count_of j counts + 1) counts else counts)
      ≡ count_of k counts + (if has_key k initials then (if text_eq j k then 1 else 0) else 0)
count_key j k initials counts = elim (Bool-cases (text_eq j k)) [
  | inl e ↦
      let d : j ≡ k = text_eq_sound j k e in
      rw (d, text_eq_self k)
        (elim (Bool-cases (has_key k initials)) [
          | inl h ↦
              rw h (count_of-set_key k k (count_of k counts + 1) counts ∙ rw (text_eq_self k) refl)
          | inr h ↦ rw h (omega arith)
        ])
  | inr e ↦ rw e (elim (Bool-cases (has_key j initials)) [
    | inl h ↦ rw h (count_of-set_key j k (count_of j counts + 1) counts ∙ rw e (ground arith))
    | inr h ↦ rw h (ground arith)
  ])
]

-- The handler of a field counter adds to the count of each of its keys the number of the items with
-- that key, and leaves every other count as it is.
pub count_items_exact :
    (transformer : Text → Option Text) (initials : List (Text × ℕ)) (fs : List (Option Text))
    (counts : List (Text × ℕ)) (k : Text)
    → count_of k (count_items transformer initials fs counts)
      ≡ count_of k counts + (if has_key k initials then with_key transformer k fs else 0)
unfolding count_items count_item with_key
count_items_exact transformer initials [] counts k = ground arith
count_items_exact transformer initials (none ∷ fs) counts k =
    count_items_exact transformer initials fs counts k
count_items_exact transformer initials (some f ∷ fs) counts k =
    count_items_exact transformer initials fs (count_item transformer initials (some f) counts) k
    ∙ ground (arith, count_key (counted_key (transformer f)) k initials counts)
