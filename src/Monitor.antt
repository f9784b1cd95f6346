-- ===== src/Monitor.antt =====
-- static/js/validate.js: `LoadValidator`, which counts errors, drops and items and keeps times.
mod Tests
pub mod Windows
pub mod Counts
pub mod Frame
use fprime_gds.Base.Store.{find_key, set_key}
use fprime_gds.Base.{
  ℕ, List, Option, ◌*◌, some, [], ◌+◌, ◌∷◌, suc, length, ◌/◌, ◌++◌, none, last_n, zero, Bool,
  if◌then◌else◌, leb, false, ◌-◌, true,
}
use fprime_gds.Base.Text.{Text, codes}
use fprime_gds.Base.Int.{ℤ, pos, ◌-ℤ◌}

-- Times are in milliseconds, and `error_limit` is not negative.
pub record LoadValidator : Type 0 where
  pub backlog : List Text
  pub counts : List (Text × ℕ)
  pub dropped : List (Text × ℤ)
  pub times : List (Text × List ℕ)
  pub misc_counts : List (Text × ℕ)
  pub window_ms : ℕ
  pub error_limit : ℕ
  pub validation_counts : List (Text × ℕ)
  pub falling_behind : List (Text × ℕ)

-- a || b, where 0 counts as missing
unfoldable pub or_else_number : Option ℕ → ℕ → ℕ
or_else_number none d = d
or_else_number (some zero) d = d
or_else_number (some (suc n)) d = suc n

pub or_zero : Option ℕ → ℕ
or_zero none = 0
or_zero (some n) = n

-- a || now, where a is a date
or_now : Option ℕ → ℕ → ℕ
or_now none now = now
or_now (some t) now = t

-- new LoadValidator(limit)
pub new_validator : Option ℕ → LoadValidator
unfolding or_else_number
new_validator limit = record {
  backlog = [];
  counts = [];
  dropped = [];
  times = [];
  misc_counts = [];
  window_ms = 300000;
  error_limit = or_else_number limit 100;
  validation_counts = [];
  falling_behind = [];
}

-- map[key] || 0
pub count_of : Text → List (Text × ℕ) → ℕ
unfolding find_key or_zero
count_of k m = or_zero (find_key k m)

pub arbitrary_count : Text → Bool → LoadValidator → LoadValidator
unfolding count_of set_key
arbitrary_count k init v =
    let n = count_of k v.misc_counts in
    record v { misc_counts = set_key k (if init then n else n + 1) v.misc_counts }

pub update_errors : List Text → LoadValidator → LoadValidator
unfolding set_key count_of
update_errors errors v = record v {
  counts =
      set_key (codes "GDS_Errors") (count_of (codes "GDS_Errors") v.counts + length errors)
        v.counts;
  backlog = last_n v.error_limit (v.backlog ++ errors);
}

-- `history` counts the new items, `validation` is the token of the response, if it has one.
pub update_dropped : Text → ℕ → Option ℕ → LoadValidator → LoadValidator
unfolding count_of set_key or_else_number
update_dropped k history validation v =
    let n = count_of k v.validation_counts + history in
    record v {
      validation_counts = set_key k n v.validation_counts;
      dropped = set_key k (pos (or_else_number validation n) -ℤ pos n) v.dropped;
    }

-- Math.round(window / interval)
pub window_samples : ℕ → ℕ → ℕ
window_samples window interval = (2 * window + interval) / (2 * interval)

pub times_of : Option (List ℕ) → List ℕ
times_of none = []
times_of (some ts) = ts

falling_message : Text → Text
falling_message k = codes "Polling for '" ++ k ++ codes "' is falling behind fore 5 seconds"

-- The check behind the window: `now` and the last good time.
check_falling : Text → ℕ → ℕ → ℕ → LoadValidator → LoadValidator
unfolding set_key find_key update_errors falling_message or_now
check_falling k interval now last v =
    let good = or_now (find_key k v.falling_behind) now in
    if leb last interval
    then record v { falling_behind = set_key k now v.falling_behind }
    else if leb 5000 (now - good)
    then record (update_errors (falling_message k ∷ []) v) {
      falling_behind = set_key k now v.falling_behind;
    }
    else v

-- `setting` is parseInt(_settings.polling_intervals[key]), `none` for NaN.
pub update_timing : Text → Option ℕ → ℕ → Option ℕ → LoadValidator → LoadValidator
unfolding set_key find_key window_samples times_of check_falling or_else_number
update_timing k setting now none v = v
update_timing k setting now (some last) v =
    let interval = or_else_number setting 1000 in
    let samples =
      last_n (window_samples v.window_ms interval) (times_of (find_key k v.times) ++ last ∷ []) in
    check_falling k interval now last (record v { times = set_key k samples v.times })

-- What `wrapResponseHandler` reads of a response.
pub record Response (A : Type 0) : Type 0 where
  pub history : Option (List A)
  pub validation : Option ℕ
  pub errors : Option (List Text)

texts_of : Option (List Text) → List Text
texts_of none = []
texts_of (some es) = es

-- (history || []).length
items_of : {A : Type 0} → Option (List A) → ℕ
items_of none = 0
items_of (some xs) = length xs

-- The handler up to the call of `follow_on`.
pub handle_response :
    {A : Type 0} → Text → Option ℕ → ℕ → Option ℕ → Response A → LoadValidator → LoadValidator
unfolding update_dropped update_errors update_timing texts_of items_of
handle_response k setting now last r v =
    update_timing k setting now last
      (update_errors (texts_of r.errors) (update_dropped k (items_of r.history) r.validation v))

-- A key that an object does not have as a text is looked up as "null".
pub counted_key : Option Text → Text
counted_key none = codes "null"
counted_key (some k) = k

pub has_key : Text → List (Text × ℕ) → Bool
unfolding find_key
has_key k m = elim (find_key k m) [ none ↦ false | some _ ↦ true ]

-- One item of the handler of `wrapFieldCounter`; `field` is the value of its field.
pub count_item :
    (Text → Option Text) → List (Text × ℕ) → Option Text → List (Text × ℕ) → List (Text × ℕ)
unfolding has_key count_of set_key counted_key
count_item transformer initials none counts = counts
count_item transformer initials (some value) counts =
    let k = counted_key (transformer value) in
    if has_key k initials then set_key k (count_of k counts + 1) counts else counts

pub count_items :
    (Text → Option Text) → List (Text × ℕ) → List (Option Text) → List (Text × ℕ) → List (Text × ℕ)
unfolding count_item
count_items transformer initials [] counts = counts
count_items transformer initials (f ∷ fs) counts =
    count_items transformer initials fs (count_item transformer initials f counts)

-- What `wrapFieldCounter` does when it is called: _self.counts[key] = _self.counts[key] || value.
pub init_counts : List (Text × ℕ) → List (Text × ℕ) → List (Text × ℕ)
unfolding set_key find_key or_else_number
init_counts [] counts = counts
init_counts ((k, n) ∷ initials) counts =
    init_counts initials (set_key k (or_else_number (find_key k counts) n) counts)

pub error_message : Text → Text → Text
error_message k error = codes "[ERROR] '" ++ k ++ codes "' produced error: " ++ error

-- getErrorHandler
pub handle_error : Text → Option ℕ → ℕ → Option ℕ → Text → LoadValidator → LoadValidator
unfolding update_timing update_errors error_message
handle_error k setting now last error v =
    update_errors (error_message k error ∷ []) (update_timing k setting now last v)
