-- ===== src/Charts/Display/Points/Tests.antt =====
-- A field of a channel, and a channel of another name.
use fprime_gds.Base.{true, refl, some, ◌≡◌, ◌∷◌, [], ℕ}
use fprime_gds.Base.Text.{codes, join, text_eq}
use fprime_gds.Base.Decimal.{show_ℕ}
use fprime_gds.Base.Store.{find_key}
use fprime_gds.History.{no_date}
use fprime_gds.Json.Values.{json_object, json_truth, member_then, no_members, find_json}
use fprime_gds.Charts.Display.Points.{Channel, send_points, ert}

abbrev arrived : ℕ → Channel
arrived k = record {
  id = k;
  time = record { seconds = 5; microseconds = 0 };
  datetime = no_date;
  ert = some 70;
  val = json_object (member_then (codes "on") (json_truth true) no_members);
}

field_points :
    send_points
      ((codes "1", codes "A.b") ∷ (codes "2", codes "A.c") ∷ [])
      (codes "xml")
      ert
      (codes "A.b.on")
      (arrived 1 ∷ arrived 2 ∷ [])
      []
    ≡ some (record { x = 70; y = some (json_truth true) } ∷ [])
unfolding send_points find_key show_ℕ text_eq join find_json
field_points = refl
