-- ===== src/Uploader/Forms.antt =====
-- static/js/uploader.js: what stands in the form under the keys of a file.
use fprime_gds.Base.{
  ◌∙◌, true, ◌++◌, refl, inl, inr, some, false, ◌∷◌, [], ◌≡◌, ◌≢◌, ◌+◌, ℕ, zero, suc, List, ap, sym,
  arith, Bool-cases, get_elem?,
}
use mathlib.Core.List.{append_cancel_left, append_cancel_right}
use mathlib.Core.Path.{subst}
use mathlib.Core.Option.{some-injective}
use fprime_gds.Base.Text.{Text, codes, text_eq, text_eq_self, text_eq_sound}
use fprime_gds.Base.Decimal.{show_ℕ, digits_value}
use fprime_gds.Base.Decimal.RoundTrip.{digits_value-show_ℕ}
use fprime_gds.Base.Store.{find_key}
use fprime_gds.Uploader.{SelectedFile, FormValue, content_of, text_of, indexed_key, form_data}

show_ℕ-injective : (a b : ℕ) → show_ℕ a ≡ show_ℕ b → a ≡ b
show_ℕ-injective a b e =
    some-injective a b
      (sym (digits_value-show_ℕ a) ∙ ap (digits_value 10 0) e ∙ digits_value-show_ℕ b)

indexed_key-injective : (name : Text) (a b : ℕ) → indexed_key name a ≡ indexed_key name b → a ≡ b
unfolding indexed_key
indexed_key-injective name a b e = show_ℕ-injective a b (
    append_cancel_left (name ++ codes "[") (show_ℕ a) (show_ℕ b) (
      append_cancel_right (name ++ codes "[" ++ show_ℕ a) (name ++ codes "[" ++ show_ℕ b)
        (codes "]") e))

-- The keys of two files differ, and so do those of a file and of packets.
keys_differ :
    (name : Text) (a b : ℕ) → a ≢ b → text_eq (indexed_key name a) (indexed_key name b) ≡ false
keys_differ name a b n = elim (Bool-cases (text_eq (indexed_key name a) (indexed_key name b))) [
  | inl e ↦ absurd (n (indexed_key-injective name a b (text_eq_sound _ _ e)))
  | inr e ↦ e
]

packets_differ :
    (a b : ℕ) → text_eq (indexed_key (codes "packets") a) (indexed_key (codes "files") b) ≡ false
unfolding indexed_key text_eq
packets_differ a b = refl

files_differ :
    (a b : ℕ) → text_eq (indexed_key (codes "files") a) (indexed_key (codes "packets") b) ≡ false
unfolding indexed_key text_eq
files_differ a b = refl

find_key-here :
    {A : Type 0} (k j : Text) (a : A) (m : List (Text × A))
    → text_eq j k ≡ true
    → find_key k ((j, a) ∷ m) ≡ some a
unfolding find_key
find_key-here k j a m h = rw h refl

find_key-past :
    {A : Type 0} (k j : Text) (a : A) (m : List (Text × A))
    → text_eq j k ≡ false
    → find_key k ((j, a) ∷ m) ≡ find_key k m
unfolding find_key
find_key-past k j a m h = rw h refl

find_key-past_two :
    {A : Type 0} (k i j : Text) (a b : A) (m : List (Text × A))
    → text_eq i k ≡ false
    → text_eq j k ≡ false
    → find_key k ((i, a) ∷ (j, b) ∷ m) ≡ find_key k m
find_key-past_two k i j a b m p q = find_key-past k i a ((j, b) ∷ m) p ∙ find_key-past k j b m q

module _ {C P : Type 0} (stringify : P → Text) where
  -- The form has a file and its packets under the keys of its place in the list.
  unfoldable pub HasFile : ℕ → SelectedFile C P → List (Text × FormValue C) → Type 0
  HasFile i f fields =
      (find_key (indexed_key (codes "files") i) fields ≡ some (content_of f.file))
      × (find_key (indexed_key (codes "packets") i) fields ≡ some (text_of (stringify f.packets)))

  HasFile-first :
      (n : ℕ) (f : SelectedFile C P) (fs : List (SelectedFile C P))
      → HasFile n f (form_data stringify n (f ∷ fs))
  unfolding HasFile form_data
  HasFile-first n f fs =
      let fk = indexed_key (codes "files") n in
      let pk = indexed_key (codes "packets") n in
      let rest = form_data stringify (suc n) fs in
      let packets = text_of (stringify f.packets) in
      (
        find_key-here fk fk (content_of f.file) ((pk, packets) ∷ rest) (text_eq_self fk),
        find_key-past pk fk (content_of f.file) ((pk, packets) ∷ rest) (files_differ n n)
            ∙ find_key-here pk pk packets rest (text_eq_self pk),
      )

  HasFile-later :
      (n i : ℕ) (f g : SelectedFile C P) (fs : List (SelectedFile C P))
      → n ≢ i
      → HasFile i f (form_data stringify (suc n) fs)
      → HasFile i f (form_data stringify n (g ∷ fs))
  unfolding HasFile form_data
  HasFile-later n i f g fs d (h, k) =
      let fk = indexed_key (codes "files") n in
      let pk = indexed_key (codes "packets") n in
      let rest = form_data stringify (suc n) fs in
      let packets = text_of (stringify g.packets) in
      (
        find_key-past_two (indexed_key (codes "files") i) fk pk (content_of g.file) packets rest
              (keys_differ (codes "files") n i d) (packets_differ n i)
            ∙ h,
        find_key-past_two (indexed_key (codes "packets") i) fk pk (content_of g.file) packets rest
              (files_differ n i) (keys_differ (codes "packets") n i d)
            ∙ k,
      )

  form_data-HasFile_from :
      (n i : ℕ) (fs : List (SelectedFile C P)) {f : SelectedFile C P}
      → get_elem? fs i ≡ some f
      → HasFile (n + i) f (form_data stringify n fs)
  form_data-HasFile_from n i [] h = absurd cc
  form_data-HasFile_from n zero (g ∷ fs) {f} h =
      let e : n + 0 ≡ n = omega arith in
      rw e (
        subst (λ x. HasFile n x (form_data stringify n (g ∷ fs))) (some-injective g f h)
          (HasFile-first n g fs))
  form_data-HasFile_from n (suc i) (g ∷ fs) {f} h =
      let e : suc n + i ≡ n + suc i = omega arith in
      HasFile-later n (n + suc i) f g fs (λ q. omega arith)
        (subst (λ k. HasFile k f (form_data stringify (suc n) fs)) e
          (form_data-HasFile_from (suc n) i fs h))

  pub form_data-HasFile :
      (i : ℕ) (fs : List (SelectedFile C P)) {f : SelectedFile C P}
      → get_elem? fs i ≡ some f
      → HasFile i f (form_data stringify 0 fs)
  form_data-HasFile i fs {f} h =
      let e : 0 + i ≡ i = omega arith in
      subst (λ k. HasFile k f (form_data stringify 0 fs)) e (form_data-HasFile_from 0 i fs h)
