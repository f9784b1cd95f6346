-- ===== src/Views/Uplink/Sent.antt =====
-- static/js/vue-support/uplink.js with static/js/uploader.js: what is sent for the selected files.
use fprime_gds.Base.{refl, none, some, [], ◌∷◌, ◌≡◌, ℕ, zero, suc, List, get_elem?, map, ap}
use mathlib.Core.Option.{some-injective}
use fprime_gds.Base.Text.{Text, codes}
use fprime_gds.Uploader.{
  Upload, FormValue, upload, destination_answered, form_data, upload_endpoint, put_fields,
  post_form,
}
use fprime_gds.Uploader.Forms.{HasFile, form_data-HasFile}
use fprime_gds.Views.Uplink.{Uplink, UplinkFile, uplink_files, to_send}

module _ {C : Type 0} (stringify : List ℕ → Text) where
  get_elem?-to_send :
      (fs : List (UplinkFile C)) (i : ℕ) {f : UplinkFile C}
      → get_elem? fs i ≡ some f
      → get_elem? (map to_send fs) i ≡ some (to_send f)
  get_elem?-to_send [] i h = absurd cc
  get_elem?-to_send (g ∷ fs) zero {f} h = ap some (ap to_send (some-injective g f h))
  get_elem?-to_send (g ∷ fs) (suc i) h = get_elem?-to_send fs i h

  -- What was sent when the server has taken the destination.
  uplink_files-upload :
      (u : Uplink C) (fs : List (UplinkFile C)) (i : ℕ) {f : UplinkFile C}
      → u.selected ≡ fs
      → get_elem? fs i ≡ some f
      → (uplink_files u).1 ≡ some (upload (map to_send fs) u.destination).1
  unfolding uplink_files
  uplink_files-upload u [] i e h = absurd cc
  uplink_files-upload u (g ∷ fs) i e h = rw e refl

  -- Each selected file is sent with its packets under the keys of its place, in one form behind the
  -- request that sets the destination, once the server has answered that.
  pub uplink_files-HasFile :
      (u : Uplink C) (i : ℕ) {f : UplinkFile C}
      → get_elem? u.selected i ≡ some f
      → (up : Upload C (List ℕ)) × (fields : List (Text × FormValue C)) × ((uplink_files u).1
          ≡ some up)
        × ((destination_answered stringify none up).sent
            ≡ put_fields (codes "/upload/destination") ((codes "destination", u.destination) ∷ [])
              ∷ post_form upload_endpoint fields
              ∷ [])
        × HasFile stringify i (to_send f) fields
  unfolding destination_answered upload
  uplink_files-HasFile u i h = (
    (upload (map to_send u.selected) u.destination).1,
    form_data stringify 0 (map to_send u.selected),
    uplink_files-upload u u.selected i refl h,
    refl,
    form_data-HasFile stringify i (map to_send u.selected) (get_elem?-to_send u.selected i h),
  )
