-- ===== src/User/Routes/Registers.antt =====
-- The route of the registration with its form, over the repository in memory.
use ormus.Prelude.{
  String, ◌≡◌, refl, ◌∙◌, Option, none, some, Bool, true, false, List, [], ◌∷◌, ◌++◌, Table, lookup,
  ok, Error, eq_refl, arith, if◌then◌else◌, Bool-cases, inl, inr,
}
use ormus.RichError.{
  new, with_message, with_wrapped_error, with_kind, http_error, message, kind,
  map_kind_to_http_status_code, error_text,
}
use ormus.Channel.{Channel, get_input_channel}
use ormus.Form.{Validation, Field}
use ormus.Form.Rules.{Builtins, collect, Obeys, first_error, check_fields}
use ormus.Form.Users.{Runes, email_field, password_field, name_field, validate_register_request}
use ormus.User.{User, JwtConfig, RegisterRequest, Bcrypt, Signer, create_default_project, register}
use ormus.User.MockRepository.{MockRepository, has_user, does_user_exists_by_email}
use ormus.User.MockRepository as Mock
use ormus.User.MockRepository.Session.{State, repository, announce, registered}
use ormus.User.Registered.{is_email_already_registered, err_auth_user_existing}
use ormus.User.Routes as Routes
use ormus.User.Routes.{Reply, fields_reply, register_reply, register_user}
use ormus.User.Routes.Answers.{service, password_error, IsAddress, first_error-password}

has_user-append :
    (email : String) (us : List User) (u : User)
    → u.email ≡ email
    → has_user email (us ++ u ∷ []) ≡ true
has_user-append email [] u e = rw (e, eq_refl email) refl
has_user-append email (v ∷ us) u e = ground (arith, has_user-append email us u e)

module _ {Rune : Type 0} (c : Builtins) (lib : Validation State) (r : Runes Rune)
    (obeys : Obeys c lib) (b : Bcrypt) (sign : Signer) (jwt : JwtConfig)
    (broker : Table (Channel (String → State → State) (Unit {0}))) where
  abbrev pub registers : RegisterRequest → State → Reply × State
  registers req = register_user b sign (service repository c lib r obeys b sign jwt broker) (ok req)

  abbrev existing : Error
  existing = with_message err_auth_user_existing (new "validator.isEmailAlreadyRegistered")

  -- What the rules of the form say of an address that may be known.
  abbrev email_error : Bool → Option Error
  email_error known = if known then some existing else none

  -- The name, the address and the password pass the rules of the library and the policy.
  pub record IsFilled (req : RegisterRequest) : Type 0 where
    pub named : c.check_required req.name ≡ none
    pub short : c.check_length 3 50 req.name ≡ none
    pub address : IsAddress repository c lib r obeys b sign jwt broker req.email
    pub password : password_error repository c lib r obeys b sign jwt broker req.password ≡ none

  first_error-name :
      (req : RegisterRequest) (s : State)
      → IsFilled req
      → first_error c req.name (name_field lib repository r req.name).rules s ≡ (ok none, s)
  unfolding first_error
  first_error-name req s form = rw (form.named, form.short) refl

  first_error-email :
      (req : RegisterRequest) (s : State)
      → IsFilled req
      → s.users.has_err ≡ false
      → first_error c req.email
          (email_field lib repository r req.email (is_email_already_registered repository)).rules
          s
        ≡ (ok (email_error (has_user req.email s.users.users)), s)
  unfolding first_error is_email_already_registered does_user_exists_by_email
  first_error-email req s form works = elim (Bool-cases (has_user req.email s.users.users)) [
    | inl h ↦ rw (form.address.required, form.address.matches, works, h) refl
    | inr h ↦ rw (form.address.required, form.address.matches, works, h) refl
  ]

  check_three :
      (f g h : Field State) (e d a : Option Error) (s : State)
      → first_error c f.value f.rules s ≡ (ok e, s)
      → first_error c g.value g.rules s ≡ (ok d, s)
      → first_error c h.value h.rules s ≡ (ok a, s)
      → check_fields c (f ∷ g ∷ h ∷ []) s
        ≡ (ok (collect f.name e (collect g.name d (collect h.name a []))), s)
  unfolding check_fields
  check_three f g h e d a s p q o = rw (p, q, o) refl

  register_fields :
      (req : RegisterRequest) (s : State)
      → IsFilled req
      → s.users.has_err ≡ false
      → check_fields c
          (name_field lib repository r req.name
            ∷ email_field lib repository r req.email (is_email_already_registered repository)
            ∷ password_field lib repository r req.password
            ∷ [])
          s
        ≡ (ok (collect "email" (email_error (has_user req.email s.users.users)) []), s)
  register_fields req s form works =
      check_three _ _ _ _ _ _ s (first_error-name req s form) (first_error-email req s form works)
        (first_error-password repository c lib r obeys b sign jwt broker req.password s)
      ∙ rw form.password refl

  register-existing :
      (req : RegisterRequest) (s : State)
      → IsFilled req
      → s.users.has_err ≡ false
      → has_user req.email s.users.users ≡ true
      → registers req s
        ≡ (fields_reply 422 "invalid input" (("email", err_auth_user_existing) ∷ []), s)
  unfolding register_user register validate_register_request new with_message with_wrapped_error
      with_kind http_error message kind map_kind_to_http_status_code error_text
  register-existing req s form works known =
      rw (obeys.struct _ s, register_fields req s form works, known) refl

  register-new :
      (req : RegisterRequest) (s : State) (hash : String)
      (ch : Channel (String → State → State) (Unit {0}))
      → IsFilled req
      → s.users.has_err ≡ false
      → has_user req.email s.users.users ≡ false
      → b.hash_password req.password ≡ ok hash
      → lookup create_default_project broker ≡ some ch
      → ch.input_channel ≡ announce
      → registers req s ≡ (
        Routes.registered (record { id = "new_id"; email = req.email }),
        registered b sign (service repository c lib r obeys b sign jwt broker) req hash s,
      )
  unfolding register_user register validate_register_request Mock.register get_input_channel
  register-new req s hash ch form works unknown hashed there sends =
      rw (obeys.struct _ s, register_fields req s form works, unknown, hashed, works, there, sends)
        refl

  -- Over the repository in memory that is not told to fail, for an address that no user has, where
  -- the texts of both requests pass the form's rules, bcrypt hashes the first password and the broker
  -- has the channel: the first registration is answered with the new user and announces it once, and
  -- a second one of the same address with 422 and the form's error of the address, and changes
  -- nothing.
  pub register_user-twice :
      (req again : RegisterRequest) (s : State) (hash : String)
      (ch : Channel (String → State → State) (Unit {0}))
      → IsFilled req
      → IsFilled again
      → again.email ≡ req.email
      → s.users.has_err ≡ false
      → has_user req.email s.users.users ≡ false
      → b.hash_password req.password ≡ ok hash
      → lookup create_default_project broker ≡ some ch
      → ch.input_channel ≡ announce
      → let first = registers req s in
        let second = registers again first.1 in
        (first.0 ≡ Routes.registered (record { id = "new_id"; email = req.email }))
        × (first.1.announced ≡ s.announced ++ "new_id" ∷ [])
        × (second
            ≡ (fields_reply 422 "invalid input" (("email", err_auth_user_existing) ∷ []), first.1))
  register_user-twice req again s hash ch form form' same works unknown hashed there sends =
      let d = registered b sign (service repository c lib r obeys b sign jwt broker) req hash s in
      let known : has_user again.email d.users.users ≡ true =
        rw same (has_user-append req.email s.users.users _ refl) in
      rw (register-new req s hash ch form works unknown hashed there sends)
        (refl, refl, register-existing again d form' works known)
