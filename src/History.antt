-- ===== src/History.antt =====
-- static/js/datastore.js: the history helpers, which put what a poll returned into the stores.
mod Tests
pub mod Lists
pub mod Maps
pub mod Consumers
use fprime_gds.Base.{
  ℕ, zero, suc, refl, ◌*◌, Option, List, ◌++◌, Bool, ◌∷◌, ◌+◌, some, [], if◌then◌else◌, true, none,
  leb, ◌/◌, ◌==◌, false, last_n, ◌&&◌, not, ◌||◌, length,
}
use fprime_gds.Base.Text.{Text}
use fprime_gds.Base.Int.{ℤ, negsuc, pos}

-- An F´ time, as far as `timeToDate` (static/js/vue-support/utils.js) reads it.
pub record Time : Type 0 where
  pub seconds : ℕ
  pub microseconds : ℕ

-- A property that may be missing, `null`, or a date in milliseconds.
pub data Datetime : Type 0 where
  undefined no_date : Datetime
  at : ℕ → Datetime

-- new Date(…) drops the part of a millisecond.
pub time_to_date : Time → ℕ
time_to_date t = t.seconds * 1000 + t.microseconds / 1000

-- `text` stands for the rest of the item.
pub record Item : Type 0 where
  pub id : ℕ
  pub time : Option Time
  pub datetime : Datetime
  pub incremental_id : Option ℕ
  pub text : Text

-- The items with a time get their date and the next number; the counter is returned too.
stamp_time : Option Time → ℕ → Item → Item × ℕ
unfolding time_to_date
stamp_time none counter i = (i, counter)
stamp_time (some t) counter i =
    (record i { datetime = at (time_to_date t); incremental_id = some counter }, counter + 1)

pub stamp : ℕ → List Item → List Item × ℕ
unfolding stamp_time
stamp counter [] = ([], counter)
stamp counter (i ∷ is) =
    let (i', next) = stamp_time i.time counter i in
    let (is', last) = stamp next is in (i' ∷ is', last)

-- A consumer: what its `send` does to the world `S`, and the error that it throws, if any. The
-- number stands for the identity of the object.
pub record Consumer (S : Type 0) : Type 0 where
  pub key : ℕ
  pub send : List Item → S → S × Option Text

-- `active` is `none` where the flags lack the key, and `timeout` tells that a timer is pending.
pub record HistoryHelper (S : Type 0) : Type 0 where
  pub consumers : List (Consumer S)
  pub counter : ℕ
  pub active : Option Bool
  pub timeout : Bool

module _ {S : Type 0} where
  pub register : Consumer S → HistoryHelper S → HistoryHelper S
  register c h = record h { consumers = h.consumers ++ c ∷ [] }

  -- consumers.splice(consumers.indexOf(consumer), 1), if it is there
  without : ℕ → List (Consumer S) → List (Consumer S)
  without k [] = []
  without k (c ∷ cs) = let rest = without k cs in if c.key == k then cs else c ∷ rest

  pub deregister : Consumer S → HistoryHelper S → HistoryHelper S
  unfolding without
  deregister c h = record h { consumers = without c.key h.consumers }

  -- Each consumer in turn, whatever the others threw; the errors are those reported.
  pub dispatch : List Item → List (Consumer S) → S → S × List Text
  dispatch items [] s = (s, [])
  dispatch items (c ∷ cs) s =
      let (s', thrown) = c.send items s in
      let (s'', errors) = dispatch items cs s' in
      (s'', elim thrown [ none ↦ errors | some e ↦ e ∷ errors ])

  activate : HistoryHelper S → HistoryHelper S
  activate h = elim h.active [ none ↦ h | some _ ↦ record h { active = some true; timeout = true } ]

  pub update : List Item → HistoryHelper S → S → HistoryHelper S × S × List Text
  unfolding stamp dispatch activate
  update [] h s = (h, s, [])
  update (i ∷ is) h s =
      let (items, counter) = stamp h.counter (i ∷ is) in
      let (s', errors) = dispatch items h.consumers s in
      (activate (record h { counter = counter }), s', errors)

  -- The timer's callback.
  pub time_out : HistoryHelper S → HistoryHelper S
  time_out h = elim h.active [
    | none ↦ h
    | some _ ↦ record h { active = some false; timeout = false }
  ]

-- _settings.miscellaneous[key] || -1, and the test `limit >= 0`: 0 and a missing key mean no limit.
pub buffer_limit : Option ℤ → Option ℕ
buffer_limit none = none
buffer_limit (some (negsuc n)) = none
buffer_limit (some (pos zero)) = none
buffer_limit (some (pos (suc n))) = some (suc n)

pub cut : Option ℕ → List Item → List Item
cut none store = store
cut (some limit) store = last_n limit store

-- ListHistory.send
pub send_list : Option ℤ → List Item → List Item → List Item
unfolding cut buffer_limit
send_list setting new_items store = cut (buffer_limit setting) (store ++ new_items)

-- The loop over both lists, of one length.
same_items : (Item → Item → Bool) → List Item → List Item → Bool
same_items same [] ys = true
same_items same (x ∷ xs) [] = true
same_items same (x ∷ xs) (y ∷ ys) = same x y && same_items same xs ys

-- FullListHistory.send; === on items is `same`.
pub send_full_list : (Item → Item → Bool) → List Item → List Item → List Item
unfolding same_items
send_full_list same new_items store =
    if not (length store == length new_items)
    then new_items
    else if same_items same store new_items
    then store
    else new_items

-- The store of MappedHistory, an object by `id`.
abbrev pub ItemMap : Type 0
ItemMap = List (ℕ × Item)

pub get : ℕ → ItemMap → Option Item
get k [] = none
get k ((j, i) ∷ m) = if j == k then some i else get k m

pub put : ℕ → Item → ItemMap → ItemMap
put k i [] = (k, i) ∷ []
put k i ((j, o) ∷ m) = if j == k then (k, i) ∷ m else (j, o) ∷ put k i m

-- Object.assign(store, updated)
pub assign : ItemMap → ItemMap → ItemMap
unfolding put
assign store [] = store
assign store ((k, i) ∷ m) = assign (put k i store) m

-- a >= b, where `null` counts as 0 and `undefined` compares with nothing
pub not_before : Datetime → Datetime → Bool
not_before (at a) (at b) = leb b a
not_before (at a) no_date = true
not_before no_date (at b) = b == 0
not_before no_date no_date = true
not_before undefined _ = false
not_before _ undefined = false

-- (store[id] || null) === null || item.datetime >= store[id].datetime
pub is_current : Item → Option Item → Bool
unfolding not_before
is_current i none = true
is_current i (some old) = not_before i.datetime old.datetime

-- The loop that fills `updated`.
pub merge : Bool → ItemMap → List Item → ItemMap → ItemMap
unfolding is_current get put
merge last_received store [] updated = updated
merge last_received store (i ∷ is) updated =
    merge last_received store is
      (if last_received || is_current i (get i.id store) then put i.id i updated else updated)

-- MappedHistory.send
pub send_mapped : Bool → List Item → ItemMap → ItemMap
unfolding merge assign
send_mapped last_received new_items store = assign store (merge last_received store new_items [])
