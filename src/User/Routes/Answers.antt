-- ===== src/User/Routes/Answers.antt =====
-- What the route of the login tells of an address, over any repository.
use ormus.Prelude.{
  String, ◌≡◌, refl, ap, Option, none, some, Bool, true, false, [], ◌∷◌, Table, lookup, ok, Error,
  if◌then◌else◌, Bool-cases, Option-cases, inl, inr,
}
use ormus.RichError.{
  new, with_message, with_wrapped_error, with_kind, http_error, message, kind,
  map_kind_to_http_status_code, error_text,
}
use ormus.Channel.{Channel}
use ormus.Form.{Validation, Field}
use ormus.Form.Rules.{Builtins, collect, Obeys, first_error, check_fields}
use ormus.Form.Users.{
  Runes, password_rule, email_field, password_field, validate_login_request, user_validator,
  email_regex, err_email_is_not_valid, err_password_is_not_valid,
}
use ormus.User.{
  User, JwtConfig, LoginRequest, Bcrypt, Signer, Service, login, err_wrong_credentials,
  is_password_valid, Repository,
}
use ormus.User.MockRepository.{err_auth_user_not_found}
use ormus.User.Registered.{is_user_registered}
use ormus.User.Routes.{message_reply, fields_reply, user_login}

abbrev pub or_else : Option Error → Option Error → Option Error
or_else none e = e
or_else (some d) e = some d

module _ {S Rune : Type 0} (repository : Repository S) (c : Builtins) (lib : Validation S)
    (r : Runes Rune) (obeys : Obeys c lib) (b : Bcrypt) (sign : Signer) (jwt : JwtConfig)
    (broker : Table (Channel (String → S → S) (Unit {0}))) where
  -- The service over the repository, with the forms of uservalidator.
  abbrev pub service : Service S
  service = record {
    repo = repository;
    jwt = jwt;
    user_validator = user_validator lib repository r;
    internal_broker = broker;
  }

  -- What the rules of the form say of a password.
  abbrev pub password_error : String → Option Error
  password_error password = or_else (c.check_required password) (
      or_else (c.check_length 8 32 password) (
        if is_password_valid r.classes (r.runes password)
        then none
        else some (with_message err_password_is_not_valid (new "validator.isPasswordValid"))))

  -- The address has the form that the rules of the library ask for.
  pub record IsAddress (email : String) : Type 0 where
    pub required : c.check_required email ≡ none
    pub matches : c.check_match email_regex err_email_is_not_valid email ≡ none

  pub first_error-password :
      (password : String) (s : S)
      → first_error c password (password_field lib repository r password).rules s
        ≡ (ok (password_error password), s)
  unfolding first_error password_rule
  first_error-password password s = elim (Option-cases (c.check_required password)) [
    | inl q ↦ elim (Option-cases (c.check_length 8 32 password)) [
      | inl l ↦ elim (Bool-cases (is_password_valid r.classes (r.runes password))) [
        | inl v ↦ rw (q, l, v) refl
        | inr v ↦ rw (q, l, v) refl
      ]
      | inr (e, l) ↦ rw (q, l) refl
    ]
    | inr (e, q) ↦ rw q refl
  ]

  abbrev pub not_registered : Error
  not_registered = with_message err_auth_user_not_found (new "validator.isUserRegistered")

  -- What the rules of the form say of an address.
  abbrev pub email_error : Bool → Option Error
  email_error known = if known then none else some not_registered

  -- The repository tells whether a user has the address, and changes nothing.
  abbrev pub Tells : String → S → Bool → Type 0
  Tells email s known = repository.does_user_exists_by_email email s ≡ (ok known, s)

  -- The repository reads a user for the address whose password bcrypt refuses.
  abbrev pub Refuses : LoginRequest → S → Type 0
  Refuses req s =
      (u : User) × (repository.get_user_by_email req.email s ≡ (ok u, s))
      × (b.check_password_hash req.password u.password ≡ false)

  first_error-email :
      (email : String) (s : S) (known : Bool)
      → IsAddress email
      → Tells email s known
      → first_error c email
          (email_field lib repository r email (is_user_registered repository)).rules
          s
        ≡ (ok (email_error known), s)
  unfolding first_error is_user_registered
  first_error-email email s true form works = rw (form.required, form.matches, works) refl
  first_error-email email s false form works = rw (form.required, form.matches, works) refl

  check_two :
      (f g : Field S) (e d : Option Error) (s : S)
      → first_error c f.value f.rules s ≡ (ok e, s)
      → first_error c g.value g.rules s ≡ (ok d, s)
      → check_fields c (f ∷ g ∷ []) s ≡ (ok (collect f.name e (collect g.name d [])), s)
  unfolding check_fields
  check_two f g e d s h k = rw (h, k) refl

  login_fields :
      (req : LoginRequest) (s : S) (known : Bool)
      → IsAddress req.email
      → Tells req.email s known
      → check_fields c
          (email_field lib repository r req.email (is_user_registered repository)
            ∷ password_field lib repository r req.password
            ∷ [])
          s
        ≡ (
          ok (
              collect "email"
                (email_error known)
                (collect "password" (password_error req.password) [])),
          s,
        )
  login_fields req s known form works =
      check_two _ _ _ _ s (first_error-email req.email s known form works)
        (first_error-password req.password s)

  -- An address that no user has.
  login-unknown :
      (req : LoginRequest) (s : S)
      → IsAddress req.email
      → Tells req.email s false
      → user_login b sign service (ok req) s ≡ (message_reply 401 err_wrong_credentials, s)
  unfolding user_login login validate_login_request new with_message with_wrapped_error with_kind
      http_error message kind map_kind_to_http_status_code error_text lookup
  login-unknown req s form works = rw (obeys.struct _ s, login_fields req s false form works) refl

  login-weak :
      (req : LoginRequest) (s : S) (e : Error) (text : String)
      → IsAddress req.email
      → Tells req.email s true
      → password_error req.password ≡ some e
      → error_text e ≡ some text
      → user_login b sign service (ok req) s
        ≡ (fields_reply 422 "invalid input" (("password", text) ∷ []), s)
  unfolding user_login login validate_login_request new with_message with_wrapped_error with_kind
      http_error message kind map_kind_to_http_status_code error_text lookup
  login-weak req s e text form works weak t =
      rw (obeys.struct _ s, login_fields req s true form works, weak) (rw t refl)

  login-wrong :
      (req : LoginRequest) (s : S)
      → IsAddress req.email
      → Tells req.email s true
      → password_error req.password ≡ none
      → Refuses req s
      → user_login b sign service (ok req) s ≡ (message_reply 401 err_wrong_credentials, s)
  unfolding user_login login validate_login_request new with_message with_wrapped_error with_kind
      http_error message kind map_kind_to_http_status_code error_text
  login-wrong req s form works good (u, found, other) =
      rw (obeys.struct _ s, login_fields req s true form works, good, found, other) refl

  -- For an address that the form's rules of the library take and a password that the form accepts,
  -- over any repository that tells whether a user has the address, and reads the one that has, a login
  -- is answered with 401 and the text of wrong credentials, and changes nothing, both where no user
  -- has the address and where bcrypt refuses the password for the user who has.
  pub user_login-refused :
      (req : LoginRequest) (s : S) (known : Bool)
      → IsAddress req.email
      → password_error req.password ≡ none
      → Tells req.email s known
      → (known ≡ true → Refuses req s)
      → user_login b sign service (ok req) s ≡ (message_reply 401 err_wrong_credentials, s)
  user_login-refused req s true form good works wrong =
      login-wrong req s form works good (wrong refl)
  user_login-refused req s false form good works wrong = login-unknown req s form works

  -- For a password that the form refuses, the answer tells whether the address is known: 401 and
  -- wrong credentials where no user has it, 422 and the form's error of the password where one has.
  user_login-weak :
      (req : LoginRequest) (s : S) (known : Bool) (e : Error) (text : String)
      → IsAddress req.email
      → Tells req.email s known
      → password_error req.password ≡ some e
      → error_text e ≡ some text
      → (user_login b sign service (ok req) s).0 ≡ (
          if known
          then fields_reply 422 "invalid input" (("password", text) ∷ [])
          else message_reply 401 err_wrong_credentials)
  user_login-weak req s true e text form works weak t =
      ap (λ p. p.0) (login-weak req s e text form works weak t)
  user_login-weak req s false e text form works weak t =
      ap (λ p. p.0) (login-unknown req s form works)
