-- ===== src/Charts/Display/Points.antt =====
-- static/addons/chart-display/addon.js: the points that `send` appends to a chart.
mod Tests
use fprime_gds.History.{time_to_date, Time, Datetime}
use fprime_gds.Base.{
  ◌>>=◌, none, some, [], ◌∷◌, ◌++◌, List, ℕ, suc, zero, Option, Bool, if◌then◌else◌, true, false,
  take, drop, ◌==◌, get_elem?, ◌&&◌, map,
}
use fprime_gds.Base.Text.{Text, codes, text_eq, join}
use fprime_gds.Base.Decimal.{digits_value, show_ℕ}
use fprime_gds.Base.Store.{find_key}
use fprime_gds.Json.Values.{JsonValue, json_null, json_object, json_array, Elements, find_json}

-- A channel that arrives: `ert` is its Earth received time, where it has one.
pub record Channel : Type 0 where
  pub id : ℕ
  pub time : Time
  pub datetime : Datetime
  pub ert : Option ℕ
  pub val : JsonValue

pub record Point : Type 0 where
  pub x : ℕ
  pub y : Option JsonValue

pub data TimeMode : Type 0 where
  realtime ert anchored : TimeMode

-- text.split(".")
pub split_dots : Text → List Text
split_dots [] = [] ∷ []
split_dots (c ∷ cs) =
    let parts = split_dots cs in
    if c == b'.' then [] ∷ parts else elim parts [ [] ↦ (c ∷ []) ∷ [] | p ∷ ps ↦ (c ∷ p) ∷ ps ]

-- SLICE_INDEX, from the type of the dictionary
pub slice_index : Text → ℕ
unfolding text_eq
slice_index dictionary_type = if text_eq dictionary_type (codes "xml") then 2 else 3

pub channel_full_name : ℕ → Text → Text
unfolding split_dots join
channel_full_name n selected = join (codes ".") (take n (split_dots selected))

pub serial_path : ℕ → Text → Text
unfolding split_dots join
serial_path n selected = join (codes ".") (drop n (split_dots selected))

element_at : ℕ → Elements → Option JsonValue
element_at i Elements.no_elements = none
element_at zero (Elements.element_then v es) = some v
element_at (suc i) (Elements.element_then v es) = element_at i es

-- The element whose index is written as `k`.
element_named : Text → Elements → Option ℕ → Option JsonValue
unfolding element_at show_ℕ text_eq
element_named k es none = none
element_named k es (some i) = if text_eq (show_ℕ i) k then element_at i es else none

-- (o || {})[k], `none` for undefined: the members of an object and the elements of an
-- array. The units of a text are not looked up.
member_of : Option JsonValue → Text → Option JsonValue
unfolding find_json digits_value element_named
member_of (some (json_object ms)) k = find_json k ms
member_of (some (json_array es)) k = element_named k es (digits_value 10 0 k)
member_of _ k = none

follow_keys : Option JsonValue → List Text → Option JsonValue
unfolding member_of
follow_keys o [] = o
follow_keys o (k ∷ ks) = follow_keys (member_of o k) ks

-- getValue
pub get_value : JsonValue → Text → Option JsonValue
unfolding follow_keys split_dots
get_value val [] = some val
get_value val (c ∷ cs) = follow_keys (some val) (split_dots (c ∷ cs))

-- channel.datetime || timeToDate(channel.time)
date_of : Datetime → Time → ℕ
date_of (Datetime.at ms) t = ms
date_of _ t = time_to_date t

time_value : TimeMode → Channel → ℕ
unfolding date_of
time_value TimeMode.ert c = elim c.ert [ none ↦ date_of c.datetime c.time | some ms ↦ ms ]
time_value _ c = date_of c.datetime c.time

point_of : TimeMode → Text → Channel → Point
unfolding time_value get_value
point_of mode path c = record { x = time_value mode c; y = get_value c.val path }

-- The filter and the map; `none` is the TypeError of a channel that is not in the dictionary.
pub points_of : List (Text × Text) → Text → TimeMode → Text → List Channel → Option (List Point)
unfolding point_of find_key show_ℕ text_eq
points_of names full_name mode path [] = some []
points_of names full_name mode path (c ∷ cs) = do
  name ← find_key (show_ℕ c.id) names
  rest ← points_of names full_name mode path cs
  some (if text_eq name full_name then point_of mode path c ∷ rest else rest)

-- send, on the data of a chart that is there: `names` are the full names by id.
pub send_points :
    List (Text × Text) → Text → TimeMode → Text → List Channel → List Point → Option (List Point)
unfolding points_of channel_full_name serial_path slice_index
send_points names dictionary_type mode selected channels shown = do
  let n = slice_index dictionary_type
  new ← points_of names (channel_full_name n selected) mode (serial_path n selected) channels
  some (shown ++ new)
