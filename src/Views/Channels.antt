-- ===== src/Views/Channels.antt =====
-- static/js/vue-support/channel.js: the columns, the style and the hiding of a channel.
mod Tests
use fprime_gds.Base.{
  ◌>>=◌, none, some, [], ◌∷◌, ◌++◌, List, ℕ, Option, Bool, if◌then◌else◌, true, false, ◌&&◌, ◌||◌,
  ◌==◌, length,
}
use fprime_gds.Base.Text.{Text, codes}
use fprime_gds.Views.Printed.{format_hex_id}
use fprime_gds.Search.Attributes.{Attribute, list_exists_and_item_name_not_in_list}

-- A channel of the store; `V` is the type of its values, and `name` is item.template.name.
pub record Channel (V : Type 0) : Type 0 where
  pub id : ℕ
  pub time : Option Text
  pub val : Option V
  pub display_text : Option Text
  pub name : Text

-- The bounds of the dictionary, `none` for those that are not set.
pub record Bounds (V : Type 0) : Type 0 where
  pub low_red : Option V
  pub low_orange : Option V
  pub low_yellow : Option V
  pub high_red : Option V
  pub high_orange : Option V
  pub high_yellow : Option V

is_set : {V : Type 0} → Option V → Bool
is_set none = false
is_set (some v) = true

module _ {V : Type 0} (less : V → V → Bool) where
  below : V → Option V → Bool
  below v none = false
  below v (some b) = less v b

  above : V → Option V → Bool
  above v none = false
  above v (some b) = less b v

  outside : V → Option V × Option V → Bool
  unfolding below above
  outside v (low, high) = below v low || above v high

  -- The loop over the classes and their bounds.
  style_of : V → List (Text × (Option V × Option V)) → Text
  unfolding outside
  style_of v [] = codes "table-success"
  style_of v ((style, bounds) ∷ rest) = if outside v bounds then style else style_of v rest

  any_set : Bounds V → Bool
  unfolding is_set
  any_set b =
      is_set b.low_red
      || is_set b.low_orange
      || is_set b.low_yellow
      || is_set b.high_red
      || is_set b.high_orange
      || is_set b.high_yellow

  pub calculate_row_style : Bounds V → Option V → Text
  unfolding any_set style_of
  calculate_row_style b none = []
  calculate_row_style b (some v) =
      if any_set b
      then style_of v (
          (codes "fp-color-fatal", (b.low_red, b.high_red))
          ∷ (codes "fp-color-warn-hi", (b.low_orange, b.high_orange))
          ∷ (codes "fp-color-warn-lo", (b.low_yellow, b.high_yellow))
          ∷ [])
      else []

module _ {V : Type 0} (print : V → Text) where
  value_text : Option Text → V → Text
  value_text none v = print v
  value_text (some t) v = t

  -- columnify; the time is printed already, and `full_name` is that of the dictionary.
  pub columnify : Text → Channel V → List Text
  unfolding value_text
  columnify full_name c = elim c.time [
    | none ↦ [] ∷ format_hex_id (some c.id) ∷ full_name ∷ [] ∷ []
    | some t ↦ elim c.val [
      | none ↦ [] ∷ format_hex_id (some c.id) ∷ full_name ∷ [] ∷ []
      | some v ↦ t ∷ format_hex_id (some c.id) ∷ full_name ∷ value_text c.display_text v ∷ []
    ]
  ]

-- itemsShown.length == 0; `none` is the TypeError of a missing list.
pub shows_all : Attribute → Option Bool
shows_all Attribute.missing = none
shows_all (Attribute.string t) = some (length t == 0)
shows_all (Attribute.array ts) = some (length ts == 0)

module _ {V : Type 0} where
  pub no_value : Channel V → Bool
  no_value c = elim c.val [ none ↦ true | some v ↦ false ]

  no_time : Channel V → Bool
  no_time c = elim c.time [ none ↦ true | some t ↦ false ]

  -- The calls of the function of `reduce` behind the first element.
  rest_null : List (Channel V) → Bool
  unfolding no_value
  rest_null [] = true
  rest_null (c ∷ cs) = no_value c && rest_null cs

  -- reduce without an initial value: the first channel is the accumulator itself, which is true; an
  -- empty store is a TypeError.
  pub all_null : List (Channel V) → Option Bool
  unfolding rest_null
  all_null [] = none
  all_null (c ∷ cs) = some (rest_null cs)

  hidden_by : Attribute → Channel V → Option Bool
  unfolding no_value no_time
  hidden_by shown c =
      if no_value c || no_time c
      then some true
      else list_exists_and_item_name_not_in_list shown c.name

  hidden_unless : Bool → Attribute → Channel V → Option Bool
  unfolding hidden_by
  hidden_unless true shown c = some false
  hidden_unless false shown c = hidden_by shown c

  hidden_where : Bool → Attribute → Channel V → Option Bool
  unfolding shows_all hidden_unless
  hidden_where false shown c = hidden_unless false shown c
  hidden_where true shown c = do every ← shows_all shown; hidden_unless every shown c

  -- channelHider; `channels` are those of the store.
  pub channel_hider : List (Channel V) → Attribute → Channel V → Option Bool
  unfolding all_null hidden_where
  channel_hider channels shown c = do null ← all_null channels; hidden_where null shown c
