-- ===== src/History/Maps.antt =====
-- static/js/datastore.js: what the mapped store answers after an update.
use fprime_gds.History.{
  Item, ItemMap, merge, assign, put, get, send_mapped, is_current, Bool, Option, ℕ, not_before,
}
use fprime_gds.Base.{
  Bool, Option, ℕ, List, some, ◌≡◌, none, ◌∷◌, if◌then◌else◌, ◌==◌, [], arith, ◌&&◌, refl, ◌||◌,
  false, ◌⊎◌, true, Option-cases, inl, inr, ap,
}

-- The last of the items for key `k` that counts, when the store held `old` for it.
unfoldable pub newest : Bool → ℕ → Option Item → List Item → Option Item
unfolding is_current
newest last_received k old [] = none
newest last_received k old (i ∷ is) = elim (newest last_received k old is) [
  | some j ↦ some j
  | none ↦ if (i.id == k) && (last_received || is_current i old) then some i else none
]

unfoldable pub or_else : Option Item → Option Item → Option Item
or_else (some i) o = some i
or_else none o = o

get-put :
    (k j : ℕ) (i : Item) (m : ItemMap) → get k (put j i m) ≡ (if j == k then some i else get k m)
unfolding get put
get-put k j i [] = refl
get-put k j i ((l, o) ∷ m) = ground (arith, get-put k j i m)

-- A key once only, as in an object.
pub Unique : ItemMap → Type 0
Unique [] = Unit
Unique ((k, i) ∷ m) = (get k m ≡ none) × Unique m

either-nothing : (a b : Option Item) → or_else (or_else a none) b ≡ or_else a b
unfolding or_else
either-nothing none b = refl
either-nothing (some a) b = refl

put-Unique : (k : ℕ) (i : Item) (m : ItemMap) → Unique m → Unique (put k i m)
unfolding put Unique get
put-Unique k i [] u = (refl, tt)
put-Unique k i ((j, o) ∷ m) (h, u) = ground (arith, h, u, put-Unique k i m u, get-put j k i m)

get-assign :
    (k : ℕ) (store m : ItemMap)
    → Unique m
    → get k (assign store m) ≡ or_else (get k m) (get k store)
unfolding assign get or_else Unique
get-assign k store [] u = refl
get-assign k store ((j, i) ∷ m) (h, u) =
    rw (get-assign k (put j i store) m u, get-put k j i store) (ground (arith, h))

merge-Unique :
    (last_received : Bool) (store : ItemMap) (is : List Item) (m : ItemMap)
    → Unique m
    → Unique (merge last_received store is m)
unfolding merge
merge-Unique last_received store [] m u = u
merge-Unique last_received store (i ∷ is) m u =
    merge-Unique last_received store is
      (if last_received || is_current i (get i.id store) then put i.id i m else m)
      (ground (arith, put-Unique i.id i m u))

get-merge :
    (k : ℕ) (last_received : Bool) (store : ItemMap) (is : List Item) (m : ItemMap)
    → get k (merge last_received store is m)
      ≡ or_else (newest last_received k (get k store) is) (get k m)
unfolding merge newest or_else
get-merge k last_received store [] m = refl
get-merge k last_received store (i ∷ is) m =
    rw
      (get-merge k last_received store is
        (if last_received || is_current i (get i.id store) then put i.id i m else m))
      (ground (arith, get-put k i.id i m))

-- Behind an update each key has the last item that arrived for it and counts, which is any item
-- if the last received is displayed, and else one not older than what the store held before; a
-- key without such an item keeps what it had.
pub get-send_mapped :
    (k : ℕ) (last_received : Bool) (new_items : List Item) (store : ItemMap)
    → get k (send_mapped last_received new_items store)
      ≡ or_else (newest last_received k (get k store) new_items) (get k store)
unfolding send_mapped Unique get or_else
get-send_mapped k last_received new_items store =
    rw
      (
        get-assign k store (merge last_received store new_items [])
            (merge-Unique last_received store new_items [] tt),
        get-merge k last_received store new_items [],
      )
      (either-nothing (newest last_received k (get k store) new_items) (get k store))

not_before-newest :
    (k : ℕ) (old : Item) (is : List Item) (i : Item)
    → newest false k (some old) is ≡ some i
    → not_before i.datetime old.datetime ≡ true
unfolding newest is_current
not_before-newest k old [] i h = cc
not_before-newest k old (j ∷ is) i h = ground (arith, h, not_before-newest k old is i)

-- Unless the last received is displayed, an update replaces an item of the store only by one whose
-- date is not before the date of the item.
pub send_mapped-not_before :
    (k : ℕ) (new_items : List Item) (store : ItemMap) (old i : Item)
    → get k store ≡ some old
    → get k (send_mapped false new_items store) ≡ some i
    → (i ≡ old) ⊎ (not_before i.datetime old.datetime ≡ true)
unfolding or_else
send_mapped-not_before k new_items store old i before after =
    elim (Option-cases (newest false k (some old) new_items)) [
      | inl e ↦ inl (
          cc (
            before,
            after,
            get-send_mapped k false new_items store,
            e,
            ap (λ o. or_else (newest false k o new_items) o) before,
            ap (λ o. or_else o (some old)) e,
          ))
      | inr (j, e) ↦ inr (
          not_before-newest k old new_items i (
            cc (
              before,
              after,
              e,
              get-send_mapped k false new_items store,
              ap (λ o. or_else (newest false k o new_items) o) before,
              ap (λ o. or_else o (some old)) e,
            )))
    ]
