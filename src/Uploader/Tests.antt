-- ===== src/Uploader/Tests.antt =====
-- Uploads of two files.
use fprime_gds.Base.{refl, none, some, [], ◌∷◌, ◌≡◌, List}
use fprime_gds.Base.Text.{Text, codes}
use fprime_gds.Loader.{waiting, resolved}
use fprime_gds.Uploader.{
  SelectedFile, upload, destination_answered, files_answered, form_data, post_form, put_fields,
  content_of, text_of, indexed_key,
}

abbrev same : Text → Text
same t = t

abbrev two_files : List (SelectedFile Text Text)
two_files =
    record { file = codes "A"; packets = codes "[]" }
    ∷ record { file = codes "B"; packets = codes "[1]" }
    ∷ []

accepted :
    files_answered none (destination_answered same none (upload two_files (codes "/d")).1)
    ≡ record {
      consumed = two_files;
      sent =
          put_fields (codes "/upload/destination") ((codes "destination", codes "/d") ∷ [])
          ∷ post_form (codes "/upload/files") (
              (codes "files[0]", content_of (codes "A"))
              ∷ (codes "packets[0]", text_of (codes "[]"))
              ∷ (codes "files[1]", content_of (codes "B"))
              ∷ (codes "packets[1]", text_of (codes "[1]"))
              ∷ [])
          ∷ [];
      promise = resolved;
    }
unfolding files_answered destination_answered upload form_data indexed_key
accepted = refl

-- A refused destination: the files are gone from the list, and the promise waits for ever.
refused :
    ((upload two_files (codes "/d")).0 ≡ [])
    × ((destination_answered same (some (codes "404")) (upload two_files (codes "/d")).1).promise
        ≡ waiting)
unfolding destination_answered upload
refused = (refl, refl)
