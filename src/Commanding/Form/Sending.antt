-- ===== src/Commanding/Form/Sending.antt =====
-- static/addons/commanding/command-input.js: what is sent, and what comes back.
use fprime_gds.Commanding.{Value, Option, Text, List}
use fprime_gds.Commanding.Select.{Command, Commands, names_of}
use fprime_gds.Commanding.Form.{
  Form, invalid, selected_command, change_command, validate_args, checked_name, validate_form,
  send_command, sent, serialize_args, Request, Refusal,
}
use fprime_gds.Validate.{Argument, find_case_insensitive, Verdict, passed, is_passed, failed, unset}
use fprime_gds.Base.{
  Option, ◌≡◌, List, ◌∷◌, true, some, Bool, length, ℕ, >>=-eq-some, none, ◌≤◌, false, [], arith,
  ◌>>=◌, ◌++◌, refl, ◌&&◌, ◌∙◌, Option-cases, if◌then◌else◌, ap, inl, Bool-cases, inr,
}
use fprime_gds.Base.Text.{Text, codes}

-- Every argument passes.
abbrev pub AllPass : (Argument → Option (Verdict × Argument)) → List Argument → Type 0
AllPass validate [] = Unit
AllPass validate (a ∷ rest) =
    ((b : Argument) × (validate a ≡ some (passed, b))) × AllPass validate rest

is_passed_sound : (v : Verdict) → is_passed v ≡ true → v ≡ passed
unfolding is_passed
is_passed_sound passed h = refl
is_passed_sound failed h = cc
is_passed_sound unset h = cc

last_passed :
    (v : Verdict × Argument) (r : Bool × List Argument) (bs : List Argument)
    → ◌≡◌ {A = Option (Bool × List Argument)}
        (some (is_passed v.0 && r.0, v.1 ∷ r.1))
        (some (true, bs))
    → (v.0 ≡ passed) × (r.0 ≡ true)
unfolding is_passed
last_passed (passed, b) (true, rs) bs h = (refl, refl)
last_passed (passed, b) (false, rs) bs h = cc
last_passed (failed, b) r bs h = cc
last_passed (unset, b) r bs h = cc

validate_args-AllPass :
    (validate : Argument → Option (Verdict × Argument)) (args bs : List Argument)
    → validate_args validate args ≡ some (true, bs)
    → AllPass validate args
unfolding validate_args
validate_args-AllPass validate [] bs h = tt
validate_args-AllPass validate (a ∷ rest) bs h =
    let (r, e, h1) =
      >>=-eq-some (validate_args validate rest)
        (λ r. validate a >>= λ v. some (is_passed v.0 && r.0, v.1 ∷ r.1)) h in
    let (v, d, h2) = >>=-eq-some (validate a) (λ v. some (is_passed v.0 && r.0, v.1 ∷ r.1)) h1 in
    let (dv, dr) = last_passed v r bs h2 in
    (
      (v.1, d ∙ ap (λ x. some (x, v.1)) dv),
      validate_args-AllPass validate rest r.1 (e ∙ ap (λ x. some (x, r.1)) dr),
    )

module _ (lower : Text → Text) (validate : Argument → Option (Verdict × Argument))
    (serialize : Argument → Option Value) where
  validate_form-AllPass :
      (form_valid : Bool) (f g : Form) (commands changed : Commands)
      → validate_form lower validate form_valid f commands ≡ some (true, g, changed)
      → (form_valid ≡ true)
        × ((c : Command) × (selected_command f.selected commands ≡ some c)
            × AllPass validate c.args)
  unfolding validate_form
  validate_form-AllPass form_valid f g commands changed h =
      elim (Option-cases (selected_command f.selected commands)) [
        | inl e ↦ absurd ground (arith, h, e)
        | inr (c, e) ↦ elim (Option-cases (validate_args validate c.args)) [
          | inl d ↦ absurd ground (arith, h, e, d)
          | inr (r, d) ↦ (
            ground (arith, h, e, d),
            (
              c,
              e,
              validate_args-AllPass validate c.args r.1
                  (d ∙ ap (λ x. some (x, r.1)) (ground (arith, h, e, d))),
            ),
          )
        ]
      ]

  -- A command is sent only when the browser's check and every argument of the selected command pass.
  pub send_command-AllPass :
      (form_valid : Bool) (f g : Form) (commands changed : Commands) (q : Request)
      → send_command lower validate serialize form_valid f commands ≡ some (g, changed, some q)
      → (form_valid ≡ true)
        × ((c : Command) × (selected_command f.selected commands ≡ some c)
            × AllPass validate c.args)
  unfolding send_command validate_form
  send_command-AllPass form_valid f g commands changed q h =
      let (r, e, k) =
        >>=-eq-some (validate_form lower validate form_valid f commands)
          (λ r. if r.0 then sent lower validate serialize r.1 r.2 else some (r.1, r.2, none)) h in
      elim (Bool-cases r.0) [
        | inl t ↦
            validate_form-AllPass form_valid f r.1 commands r.2 (e ∙ ap (λ x. some (x, r.1, r.2)) t)
        | inr t ↦ absurd (ground (arith, k, t))
      ]

  -- A command of no argument that is not in the store is sent all the same, under the name that the
  -- form calls unknown.
  pub send_command-unknown :
      (name before : Text) (active : Bool) (error : Text) (commands : Commands)
      → find_case_insensitive lower (some name) (names_of commands) ≡ none
      → let c : Command = record { full_name = name; args = []; error = error } in
        let f : Form = record { selected = invalid c; active = active; error = before } in
        let g : Form = record {
          selected = invalid c;
          active = true;
          error = name ++ codes " is not a command.";
        } in
        let q : Request = record { address = codes "/commands/" ++ name; arguments = [] } in
        send_command lower validate serialize true f commands ≡ some (g, commands, some q)
  unfolding send_command validate_form sent selected_command validate_args serialize_args
      change_command checked_name
  send_command-unknown name before active error commands h = rw h refl

-- No error names more arguments than there are.
abbrev pub Fit : List Refusal → ℕ → Type 0
Fit [] n = Unit
Fit (e ∷ es) n = (length e.argument_errors ≤ n) × Fit es n
