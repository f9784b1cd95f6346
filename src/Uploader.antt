-- ===== src/Uploader.antt =====
-- static/js/uploader.js: class Uploader. The loader's requests are values, and the answers to them are
-- steps.
mod Tests
pub mod Forms
use fprime_gds.Base.{none, some, [], ◌∷◌, ◌++◌, List, ℕ, suc, Option}
use fprime_gds.Base.Text.{Text, codes}
use fprime_gds.Base.Decimal.{show_ℕ}
use fprime_gds.Loader.{Settled, waiting, resolved, rejected}

-- A selected file: its content and its packets, which are of the types `C` and `P`.
pub record SelectedFile (C P : Type 0) : Type 0 where
  pub file : C
  pub packets : P

-- A value that is appended to the form: a content, or a text of JSON.
pub data FormValue (C : Type 0) : Type 0 where
  content_of : C → FormValue C
  text_of : Text → FormValue C

-- The calls of _loader.load: the method, the address and the data.
pub data LoadRequest (C : Type 0) : Type 0 where
  put_fields : Text → List (Text × Text) → LoadRequest C
  post_form : Text → List (Text × FormValue C) → LoadRequest C

pub record Upload (C P : Type 0) : Type 0 where
  pub consumed : List (SelectedFile C P)
  pub sent : List (LoadRequest C)
  pub promise : Settled

-- this.endpoint
abbrev pub upload_endpoint : Text
upload_endpoint = codes "/upload/files"

pub indexed_key : Text → ℕ → Text
unfolding show_ℕ
indexed_key name i = name ++ codes "[" ++ show_ℕ i ++ codes "]"

module _ {C P : Type 0} where
  -- upload: the files are taken out of the list of the caller, whose rest is returned too.
  unfoldable pub upload : List (SelectedFile C P) → Text → List (SelectedFile C P) × Upload C P
  upload files destination = (
    [],
    record {
      consumed = files;
      sent =
          put_fields (codes "/upload/destination") ((codes "destination", destination) ∷ []) ∷ [];
      promise = waiting;
    },
  )

  -- The answer to the second request.
  pub files_answered : Option Text → Upload C P → Upload C P
  files_answered none u = record u { promise = resolved }
  files_answered (some error) u = record u { promise = rejected error }

module _ {C P : Type 0} (stringify : P → Text) where
  -- The loop over the consumed files.
  pub form_data : ℕ → List (SelectedFile C P) → List (Text × FormValue C)
  unfolding indexed_key
  form_data i [] = []
  form_data i (f ∷ fs) =
      (indexed_key (codes "files") i, content_of f.file)
      ∷ (indexed_key (codes "packets") i, text_of (stringify f.packets))
      ∷ form_data (suc i) fs

  -- The answer to the first request, `some` for its error, which nothing catches.
  unfoldable pub destination_answered : Option Text → Upload C P → Upload C P
  unfolding form_data
  destination_answered (some error) u = u
  destination_answered none u = record u {
    sent = u.sent ++ post_form upload_endpoint (form_data 0 u.consumed) ∷ [];
  }

module _ {C : Type 0} where
  action_request : Text → LoadRequest C
  action_request action = put_fields upload_endpoint ((codes "action", action) ∷ [])

  pub pause : LoadRequest C
  unfolding action_request
  pause = action_request (codes "pause-all")

  pub unpause : LoadRequest C
  unfolding action_request
  unpause = action_request (codes "unpause-all")

  pub send_cancel_packet : LoadRequest C
  unfolding action_request
  send_cancel_packet = action_request (codes "send-cancel-packet")

  pub command : Text → Text → LoadRequest C
  command file action =
      put_fields upload_endpoint ((codes "source", file) ∷ (codes "action", action) ∷ [])
