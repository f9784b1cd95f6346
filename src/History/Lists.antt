-- ===== src/History/Lists.antt =====
-- static/js/datastore.js: what the list stores hold after any number of polls.
use mathlib.Core.List.{append-nil, append_assoc}
use fprime_gds.History.{
  Item, stamp, stamp_time, send_list, cut, buffer_limit, send_full_list, same_items, ℤ,
}
use fprime_gds.Base.{
  ℕ, Option, List, Bool, ◌∷◌, ◌≡◌, [], ◌++◌, some, true, suc, ◌+◌, last_n-append, length, zero,
  arith, none, refl, Bool-cases, inl, ap, inr, ◌∙◌,
}
use fprime_gds.Base.Int.{ℤ}

-- The batches that the polls return, one after the other; an empty one is not sent, as update returns.
unfoldable pub send_all : Option ℤ → List (List Item) → List Item → List Item
unfolding send_list
send_all setting [] store = store
send_all setting ([] ∷ bs) store = send_all setting bs store
send_all setting ((i ∷ is) ∷ bs) store = send_all setting bs (send_list setting (i ∷ is) store)

unfoldable pub arrived : List (List Item) → List Item
arrived [] = []
arrived (b ∷ bs) = b ++ arrived bs

cut-append :
    (limit : Option ℕ) (xs ys : List Item) → cut limit (cut limit xs ++ ys) ≡ cut limit (xs ++ ys)
unfolding cut
cut-append none xs ys = refl
cut-append (some n) xs ys = last_n-append n xs ys

send_all-cut_lem :
    (setting : Option ℤ) (bs : List (List Item)) (xs : List Item)
    → send_all setting bs (cut (buffer_limit setting) xs)
      ≡ cut (buffer_limit setting) (xs ++ arrived bs)
unfolding send_all arrived send_list
send_all-cut_lem setting [] xs = rw (append-nil xs)
send_all-cut_lem setting ([] ∷ bs) xs = send_all-cut_lem setting bs xs
send_all-cut_lem setting ((i ∷ is) ∷ bs) xs =
    send_all-cut_lem setting bs (cut (buffer_limit setting) xs ++ i ∷ is)
    ∙ ap (cut (buffer_limit setting))
        (append_assoc (cut (buffer_limit setting) xs) (i ∷ is) (arrived bs))
    ∙ cut-append (buffer_limit setting) xs (i ∷ is ++ arrived bs)

-- After a poll with at least one item and any number of others, empty ones too, the store holds the
-- last items of everything that it held and that has arrived, as many as the settings allow, or all
-- without a limit.
pub send_all-cut :
    (setting : Option ℤ) (i : Item) (is : List Item) (bs : List (List Item)) (store : List Item)
    → send_all setting ((i ∷ is) ∷ bs) store
      ≡ cut (buffer_limit setting) (store ++ arrived ((i ∷ is) ∷ bs))
unfolding send_all arrived send_list
send_all-cut setting i is bs store =
    send_all-cut_lem setting bs (store ++ i ∷ is)
    ∙ rw (append_assoc store (i ∷ is) (arrived bs)) refl

same_items_sound :
    (same : Item → Item → Bool)
    → ((x y : Item) → same x y ≡ true → x ≡ y)
    → (xs ys : List Item) → length xs ≡ length ys
    → same_items same xs ys ≡ true
    → xs ≡ ys
unfolding same_items
same_items_sound same sound [] [] l h = refl
same_items_sound same sound [] (y ∷ ys) l h = absurd (omega arith)
same_items_sound same sound (x ∷ xs) [] l h = absurd (omega arith)
same_items_sound same sound (x ∷ xs) (y ∷ ys) l h = elim (Bool-cases (same x y)) [
  | inl e ↦
      rw (sound x y e)
        (ap (λ zs. y ∷ zs) (same_items_sound same sound xs ys (omega arith) (cc (e, h))))
  | inr e ↦ ground arith
]

-- A full list store holds what arrived last, whatever it held before.
pub send_full_list-new :
    (same : Item → Item → Bool)
    → ((x y : Item) → same x y ≡ true → x ≡ y)
    → (new_items store : List Item) → send_full_list same new_items store ≡ new_items
unfolding send_full_list
send_full_list-new same sound new_items store =
    ground (arith, same_items_sound same sound store new_items)

-- The numbers of the items with a time.
unfoldable pub numbers : List Item → List (Option ℕ)
numbers [] = []
numbers (i ∷ is) = elim i.time [ none ↦ numbers is | some _ ↦ i.incremental_id ∷ numbers is ]

unfoldable pub timed : List Item → ℕ
timed [] = 0
timed (i ∷ is) = elim i.time [ none ↦ timed is | some _ ↦ suc (timed is) ]

unfoldable pub counted_from : ℕ → ℕ → List (Option ℕ)
counted_from c zero = []
counted_from c (suc n) = some c ∷ counted_from (c + 1) n

-- The items of a poll that have a time are numbered without a gap from the counter on, in their
-- order, and the counter moves behind the last of them.
pub stamp-numbers :
    (counter : ℕ) (is : List Item)
    → (numbers (stamp counter is).0 ≡ counted_from counter (timed is))
      × ((stamp counter is).1 ≡ counter + timed is)
unfolding stamp stamp_time numbers timed counted_from
stamp-numbers counter [] = (refl, omega arith)
stamp-numbers counter (i ∷ is) =
    ground (arith, stamp-numbers counter is, stamp-numbers (counter + 1) is)
