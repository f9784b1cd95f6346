-- ===== src/Monitor/Windows.antt =====
-- static/js/validate.js: the windows of errors and times.
use fprime_gds.Monitor.Counts.{count_of-set_key}
use fprime_gds.Monitor.{
  LoadValidator, update_errors, update_timing, check_falling, window_samples, times_of,
  or_else_number, List, Text, count_of,
}
use fprime_gds.Base.Store.{find_key, set_key, find_key-set_key_self}
use mathlib.Core.Path.{refl}
use mathlib.Core.List.{append-nil, append_assoc}
use fprime_gds.Base.{
  List, ◌∷◌, ℕ, Option, ◌≡◌, some, [], ◌++◌, last_n, arith, length, ◌+◌, ◌∙◌, ◌≤◌, last_n-append,
  length-append, ap, length-last_n,
}
use fprime_gds.Base.Text.{Text, codes, text_eq}

pub update_errors_all : List (List Text) → LoadValidator → LoadValidator
unfolding update_errors
update_errors_all [] v = v
update_errors_all (b ∷ bs) v = update_errors_all bs (update_errors b v)

unfoldable pub reported : List (List Text) → List Text
reported [] = []
reported (b ∷ bs) = b ++ reported bs

update_errors-count :
    (es : List Text) (v : LoadValidator)
    → count_of (codes "GDS_Errors") (update_errors es v).counts
      ≡ count_of (codes "GDS_Errors") v.counts + length es
unfolding update_errors text_eq
update_errors-count es v =
    let n = count_of (codes "GDS_Errors") v.counts + length es in
    count_of-set_key (codes "GDS_Errors") (codes "GDS_Errors") n v.counts

-- After any number of updates, one at least, the log holds the last errors of all that it held and
-- that were reported, as many as its limit, and the counter has counted every one of them.
pub update_errors_all-reported :
    (b : List Text) (bs : List (List Text)) (v : LoadValidator)
    → let w = update_errors_all (b ∷ bs) v in
      (w.backlog ≡ last_n v.error_limit (v.backlog ++ reported (b ∷ bs)))
      × (count_of (codes "GDS_Errors") w.counts
          ≡ count_of (codes "GDS_Errors") v.counts + length (reported (b ∷ bs)))
unfolding update_errors_all update_errors reported
update_errors_all-reported b [] v =
    (rw (append-nil b) refl, rw (append-nil b) (update_errors-count b v))
update_errors_all-reported b (c ∷ bs) v =
    let (held, counted) = update_errors_all-reported c bs (update_errors b v) in
    (
      held
          ∙ last_n-append v.error_limit (v.backlog ++ b) (c ++ reported bs)
          ∙ rw (append_assoc v.backlog b (c ++ reported bs)) refl,
      omega (arith, counted, update_errors-count b v, length-append b (c ++ reported bs)),
    )

check_falling-times :
    (k : Text) (interval now last : ℕ) (v : LoadValidator)
    → (check_falling k interval now last v).times ≡ v.times
unfolding check_falling update_errors
check_falling-times k interval now last v = ground arith

-- Behind a timing update the times of the endpoint are the last ones of those it had and the new
-- one, and no more than the samples of the window.
pub update_timing-window :
    (k : Text) (setting : Option ℕ) (now last : ℕ) (v : LoadValidator)
    → let n = window_samples v.window_ms (or_else_number setting 1000) in
      let ts = times_of (find_key k (update_timing k setting now (some last) v).times) in
      (ts ≡ last_n n (times_of (find_key k v.times) ++ last ∷ [])) × (length ts ≤ n)
unfolding update_timing times_of
update_timing-window k setting now last v =
    let n = window_samples v.window_ms (or_else_number setting 1000) in
    let samples = last_n n (times_of (find_key k v.times) ++ last ∷ []) in
    let e : find_key k (update_timing k setting now (some last) v).times ≡ some samples =
      ap (find_key k) (
        check_falling-times k (or_else_number setting 1000) now last
          (record v { times = set_key k samples v.times }))
      ∙ find_key-set_key_self k samples v.times in
    (ap times_of e, rw e (length-last_n n (times_of (find_key k v.times) ++ last ∷ [])))
