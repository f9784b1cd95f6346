-- ===== src/Views/Uplink/Tests.antt =====
-- Two files, of which the second has packets.
use fprime_gds.Views.Uplink.{
  packets_selected, watch_selected, Uplink, UplinkFile, uplink_files, to_send,
}
use fprime_gds.Base.{some, refl, none, [], ◌∷◌, ◌≡◌, ℕ, List}
use fprime_gds.Base.Text.{Text, codes}
use fprime_gds.Uploader.{
  Upload, FormValue, destination_answered, upload_endpoint, put_fields, post_form,
}
use fprime_gds.Uploader.Forms.{HasFile}
use fprime_gds.Views.Uplink.Sent.{uplink_files-HasFile}

abbrev second : UplinkFile ℕ
second = record {
  key = 1;
  file = 20;
  source = codes "b";
  destination = codes "/x";
  state = codes "NOT STARTED";
  packets = 3 ∷ [];
}

abbrev two_files : Uplink ℕ
two_files = record {
  selected =
      record {
        key = 0;
        file = 10;
        source = codes "a";
        destination = codes "/x";
        state = codes "NOT STARTED";
        packets = [];
      }
      ∷ second
      ∷ [];
  destination = codes "/x";
  error = none;
  edit_file = none;
  next_key = 2;
}

blank : List ℕ → Text
blank ns = []

uplink_files-HasFile_example :
    (up : Upload ℕ (List ℕ)) × (fields : List (Text × FormValue ℕ)) × ((uplink_files two_files).1
      ≡ some up)
    × ((destination_answered blank none up).sent
        ≡ put_fields (codes "/upload/destination") ((codes "destination", codes "/x") ∷ [])
          ∷ post_form upload_endpoint fields
          ∷ [])
    × HasFile blank 1 (to_send second) fields
uplink_files-HasFile_example = uplink_files-HasFile blank two_files 1 refl

-- The packets of the dialog go to the file that is edited, and a file that is gone is not edited.
packets_of_second :
    ((packets_selected (7 ∷ []) (record two_files { edit_file = some 1 })).selected
      ≡ (record second { packets = []; key = 0; file = 10; source = codes "a" })
        ∷ record second { packets = 7 ∷ [] }
        ∷ [])
    × ((watch_selected (record two_files { edit_file = some 5 })).edit_file ≡ none)
unfolding packets_selected watch_selected
packets_of_second = (refl, refl)
