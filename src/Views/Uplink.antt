-- ===== src/Views/Uplink.antt =====
-- static/js/vue-support/uplink.js: the list of files to send, and the one whose packets are edited.
mod Tests
pub mod Sent
use fprime_gds.Uploader.{upload, SelectedFile, Upload}
use fprime_gds.Base.{
  none, some, [], ◌∷◌, ◌++◌, List, ℕ, Option, Bool, if◌then◌else◌, false, ◌||◌, ◌==◌, ◌+◌, map,
}
use fprime_gds.Base.Text.{Text, codes, text_eq}
use mathlib.Core.List.{reverse}

-- A file of the list: `key` is the identity of the object, `C` the type of contents.
pub record UplinkFile (C : Type 0) : Type 0 where
  pub key : ℕ
  pub file : C
  pub source : Text
  pub destination : Text
  pub state : Text
  pub packets : List ℕ

-- `edit_file` refers to a file by its identity, and `next_key` is that of the next new object.
pub record Uplink (C : Type 0) : Type 0 where
  pub selected : List (UplinkFile C)
  pub destination : Text
  pub error : Option Text
  pub edit_file : Option ℕ
  pub next_key : ℕ

module _ {C : Type 0} where
  new_file : Text → ℕ → C × Text → UplinkFile C
  new_file destination key (file, name) = record {
    key = key;
    file = file;
    source = name;
    destination = destination;
    state = codes "NOT STARTED";
    packets = [];
  }

  -- handleFiles, with the contents and the names of the files.
  pub handle_files : List (C × Text) → Uplink C → Uplink C
  unfolding new_file
  handle_files [] u = u
  handle_files (f ∷ fs) u = handle_files fs (record u {
    selected = u.selected ++ new_file u.destination u.next_key f ∷ [];
    next_key = u.next_key + 1;
  })

  pub to_send : UplinkFile C → SelectedFile C (List ℕ)
  to_send f = record { file = f.file; packets = f.packets }

  -- uplinkFiles: without files nothing is sent. The uploader takes the files out of the list.
  pub uplink_files : Uplink C → Uplink C × Option (Upload C (List ℕ))
  unfolding to_send
  uplink_files u = elim u.selected [
    | [] ↦ (record u { error = none }, none)
    | f ∷ fs ↦ (
      record u { error = none; edit_file = none; selected = [] },
      some (upload (map to_send (f ∷ fs)) u.destination).1,
    )
  ]

  -- The handler of an upload that is rejected.
  pub upload_failed : Text → Uplink C → Uplink C
  upload_failed [] u = record u {
    error = some (codes "Total size limited to 32MB. Please use separate uplinks");
  }
  upload_failed (c ∷ cs) u = record u { error = some (c ∷ cs) }

  pub has_file : ℕ → List (UplinkFile C) → Bool
  has_file k [] = false
  has_file k (f ∷ fs) = (f.key == k) || has_file k fs

  pub with_packets : ℕ → List ℕ → List (UplinkFile C) → List (UplinkFile C)
  with_packets k packets [] = []
  with_packets k packets (f ∷ fs) =
      (if f.key == k then record f { packets = packets } else f) ∷ with_packets k packets fs

  -- packetsSelected
  pub packets_selected : List ℕ → Uplink C → Uplink C
  unfolding with_packets
  packets_selected packets u = elim u.edit_file [
    | none ↦ u
    | some k ↦ record u { selected = with_packets k packets u.selected; edit_file = none }
  ]

  -- The watch of `selected`, which runs when the list has changed.
  pub watch_selected : Uplink C → Uplink C
  unfolding has_file
  watch_selected u = elim u.edit_file [
    | none ↦ u
    | some k ↦ if has_file k u.selected then u else record u { edit_file = none }
  ]

  -- elements: the list and, in reverse, what the server has.
  pub elements : List (UplinkFile C) → Uplink C → List (UplinkFile C)
  elements upfiles u = u.selected ++ reverse upfiles

  -- isActive
  pub is_active : List (UplinkFile C) → Bool
  unfolding text_eq
  is_active [] = false
  is_active (f ∷ fs) = text_eq f.state (codes "TRANSMITTING") || is_active fs

  pub keyify : UplinkFile C → Text
  keyify f = codes "file-" ++ (f.source ++ (f.destination ++ f.state))
