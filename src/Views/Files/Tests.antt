-- ===== src/Views/Files/Tests.antt =====
-- The last of the images, and a log that is refused.
use fprime_gds.Base.{refl, some, none, ◌≡◌, ◌∷◌, [], true}
use fprime_gds.Base.Text.{includes, codes, Text}
use fprime_gds.Views.Files.{
  File, Logging, columnify, last_image, images, last_path, is_image, log_refused, log_answered,
}

abbrev file : Text → File
file name = record {
  start = none;
  end = none;
  source = codes "s";
  destination = name;
  state = codes "FINISHED";
  percent = some 100;
}

abbrev logging : Logging
logging = record { selected = codes "a.log"; text = none; scroll = true; error = [] }

columns :
    columnify (file (codes "d"))
    ≡ [] ∷ [] ∷ codes "s" ∷ codes "d" ∷ codes "FINISHED" ∷ [] ∷ codes "100" ∷ []
unfolding columnify
columns = refl

last_of_two :
    last_image (file (codes "/a.png") ∷ file (codes "x/y\\b.jpg") ∷ file (codes "c.txt") ∷ [])
    ≡ codes "/download/files/b.jpg"
unfolding last_image images last_path is_image includes
last_of_two = refl

refused : (log_refused (codes "gone") logging).error ≡ codes "[ERROR] gone."
unfolding log_refused
refused = refl

log_shown : (log_answered ((codes "a.log", codes "line") ∷ []) logging).text ≡ some (codes "line")
unfolding log_answered
log_shown = refl
