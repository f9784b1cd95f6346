-- ===== src/Views/Channels/Tests.antt =====
-- Styles of channels, and which of them are hidden.
use fprime_gds.Base.{refl, some, none, ◌≡◌, ◌∷◌, [], ℕ, ltb, Option, false, true}
use fprime_gds.Base.Text.{codes}
use fprime_gds.Search.Attributes.{array}
use fprime_gds.Views.Channels.{
  Channel, channel_hider, all_null, rest_null, hidden_where, hidden_by, hidden_unless, shows_all,
  no_value, no_time, calculate_row_style, Bounds, style_of, any_set, is_set, outside, below, above,
}

abbrev red_above_ten : Bounds ℕ
red_above_ten = record {
  low_red = none;
  low_orange = none;
  low_yellow = none;
  high_red = some 10;
  high_orange = some 8;
  high_yellow = none;
}

styles :
    (calculate_row_style ltb red_above_ten (some 11) ≡ codes "fp-color-fatal")
    × (calculate_row_style ltb red_above_ten (some 9) ≡ codes "fp-color-warn-hi")
    × (calculate_row_style ltb red_above_ten (some 8) ≡ codes "table-success")
unfolding calculate_row_style style_of any_set is_set outside below above
styles = (refl, refl, refl)

abbrev channel : ℕ → Option ℕ → Channel ℕ
channel k v = record { id = k; time = some []; val = v; display_text = none; name = codes "A" }

-- One channel has a value, but the channels without one are not hidden: it is the first.
first_is_ignored :
    (channel_hider (channel 1 (some 5) ∷ channel 2 none ∷ []) (array []) (channel 2 none)
      ≡ some false)
    × (channel_hider (channel 2 none ∷ channel 1 (some 5) ∷ []) (array []) (channel 2 none)
        ≡ some true)
unfolding channel_hider all_null rest_null hidden_where hidden_by hidden_unless shows_all no_value
    no_time
first_is_ignored = (refl, refl)
