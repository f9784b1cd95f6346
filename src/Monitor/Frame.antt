-- ===== src/Monitor/Frame.antt =====
-- static/js/validate.js: which counts the handler of a response touches.
use fprime_gds.Monitor.Counts.{count_of-set_key}
use fprime_gds.Base.{
  ap, ◌∙◌, List, ℕ, ◌≡◌, Option, arith, ◌+◌, refl, none, some, false, length, ◌∷◌, [],
}
use fprime_gds.Base.Store.{find_key, find_key-set_key_self}
use fprime_gds.Base.Int.{◌-ℤ◌, pos}
use fprime_gds.Monitor.{
  or_else_number, count_of, Text, LoadValidator, update_errors, update_timing, check_falling,
  update_dropped, handle_response, Response, items_of, texts_of, falling_message,
}
use fprime_gds.Base.Text.{Text, text_eq, codes}

-- Reported errors change neither the counts of the fields other than GDS_Errors nor the drops.
pub update_errors-counts :
    (k : Text) (es : List Text) (v : LoadValidator)
    → text_eq (codes "GDS_Errors") k ≡ false
    → count_of k (update_errors es v).counts ≡ count_of k v.counts
unfolding update_errors
update_errors-counts k es v h =
    count_of-set_key (codes "GDS_Errors") k (count_of (codes "GDS_Errors") v.counts + length es)
      v.counts
    ∙ rw h refl

pub update_errors-dropped :
    (es : List Text) (v : LoadValidator) → (update_errors es v).dropped ≡ v.dropped
unfolding update_errors
update_errors-dropped es v = refl

check_falling-counts :
    (j k : Text) (interval now last : ℕ) (v : LoadValidator)
    → text_eq (codes "GDS_Errors") j ≡ false
    → count_of j (check_falling k interval now last v).counts ≡ count_of j v.counts
unfolding check_falling
check_falling-counts j k interval now last v h =
    ground (arith, update_errors-counts j (falling_message k ∷ []) v h)

update_timing-counts :
    (j k : Text) (setting : Option ℕ) (now : ℕ) (last : Option ℕ) (v : LoadValidator)
    → text_eq (codes "GDS_Errors") j ≡ false
    → count_of j (update_timing k setting now last v).counts ≡ count_of j v.counts
unfolding update_timing
update_timing-counts j k setting now none v h = refl
update_timing-counts j k setting now (some last) v h =
    check_falling-counts j k (or_else_number setting 1000) now last _ h

update_timing-dropped :
    (k : Text) (setting : Option ℕ) (now : ℕ) (last : Option ℕ) (v : LoadValidator)
    → (update_timing k setting now last v).dropped ≡ v.dropped
unfolding update_timing check_falling update_errors
update_timing-dropped k setting now none v = refl
update_timing-dropped k setting now (some last) v = ground arith

pub handle_response-counts :
    {A : Type 0} (j k : Text) (setting : Option ℕ) (now : ℕ) (last : Option ℕ) (r : Response A)
    (v : LoadValidator)
    → text_eq (codes "GDS_Errors") j ≡ false
    → count_of j (handle_response k setting now last r v).counts ≡ count_of j v.counts
unfolding handle_response update_dropped
handle_response-counts j k setting now last r v h =
    let w = update_dropped k (items_of r.history) r.validation v in
    update_timing-counts j k setting now last (update_errors (texts_of r.errors) w) h
    ∙ update_errors-counts j (texts_of r.errors) w h

sub_self : (n : ℕ) → pos n -ℤ pos n ≡ pos 0
unfolding ◌-ℤ◌
sub_self n = ground arith

-- A response without a number of the server leaves no drops of its endpoint.
pub handle_response-dropped :
    {A : Type 0} (k : Text) (setting : Option ℕ) (now : ℕ) (last : Option ℕ) (r : Response A)
    (v : LoadValidator)
    → r.validation ≡ none
    → find_key k (handle_response k setting now last r v).dropped ≡ some (pos 0)
unfolding handle_response update_dropped update_errors or_else_number
handle_response-dropped k setting now last r v h =
    let n = count_of k v.validation_counts + items_of r.history in
    ap (find_key k) (
      update_timing-dropped k setting now last
        (update_errors (texts_of r.errors) (update_dropped k (items_of r.history) r.validation v)))
    ∙ rw h (find_key-set_key_self k (pos n -ℤ pos n) v.dropped ∙ ap some (sub_self n))
