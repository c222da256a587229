-- ===== src/Tests/Routes.antt =====
-- The routes of users, with the forms.
use ormus.Channel.{Channel}
use ormus.Prelude.{
  Table, ℕ, String, ◌≡◌, refl, none, some, true, false, [], ◌∷◌, ok, Error, plain, str_eq,
  if◌then◌else◌,
}
use ormus.RichError.{new, with_message, error_text}
use ormus.Form.{Validation}
use ormus.Form.Rules.{Builtins, Obeys, check_fields, first_error, result_of, result_of_one}
use ormus.Form.Users.{Runes, err_password_is_not_valid}
use ormus.User.{LoginRequest, Bcrypt, err_wrong_credentials, is_password_valid}
use ormus.User.MockRepository.{default_user}
use ormus.User.MockRepository.Session.{State, repository}
use ormus.User.Routes.{message_reply, fields_reply, registered, user_login}
use ormus.User.Routes.Answers.{service, password_error, user_login-refused, IsAddress}
use ormus.User.Routes.Registers.{IsFilled, registers, register_user-twice}
use ormus.User.Registered.{err_auth_user_existing}
use ormus.Tests.Manager.{
  unicode, bcrypt, signer, config, broker_channel, user_service, no_news, register_ann, has_channel,
}

-- Rules that ask for a text that is not empty, and nothing else.
abbrev builtins : Builtins
builtins = record {
  check_required = λ v. if str_eq v "" then some (plain "cannot be blank") else none;
  check_length = λ low high v. none;
  check_match = λ re m v. none;
  summary = λ es. "invalid";
}

abbrev validation : {S : Type 0} → Validation S
validation = record {
  validate_struct = λ fs s. result_of builtins (check_fields builtins fs s);
  validate = λ v rs s. result_of_one (first_error builtins v rs s);
}

validation-Obeys : {S : Type 0} → Obeys {S = S} builtins validation
validation-Obeys = record { struct = λ fs s. refl; value = λ v rs s. refl }

-- The classes of the runes of one good password.
abbrev runes : Runes ℕ
runes = record {
  classes = unicode;
  runes = λ p. if str_eq p "HeavY!234" then 2 ∷ 1 ∷ 4 ∷ 0 ∷ [] else 1 ∷ [];
}

abbrev one_user : State
one_user = record { users = record { users = default_user ∷ []; has_err = false }; announced = [] }

-- A good password of no user, and one that the form refuses.
abbrev wrong : LoginRequest
wrong = record { email = "test@example.com"; password = "HeavY!234" }

abbrev weak : LoginRequest
weak = record { email = "test@example.com"; password = "weak" }

email-IsAddress :
    IsAddress repository builtins validation runes validation-Obeys bcrypt signer config []
      "test@example.com"
email-IsAddress = record { required = refl; matches = refl }

good :
    password_error repository builtins validation runes validation-Obeys bcrypt signer config []
      "HeavY!234"
    ≡ none
unfolding is_password_valid
good = refl

abbrev refusing : Bcrypt
refusing = record bcrypt { check_password_hash = λ p h. false }

refusing-IsAddress :
    IsAddress repository builtins validation runes validation-Obeys refusing signer config []
      "test@example.com"
refusing-IsAddress = record { required = refl; matches = refl }

good_again :
    password_error repository builtins validation runes validation-Obeys refusing signer config []
      "HeavY!234"
    ≡ none
unfolding is_password_valid
good_again = refl

user_login-refused_example :
    user_login refusing signer
      (service repository builtins validation runes validation-Obeys refusing signer config [])
      (ok wrong)
      one_user
    ≡ (message_reply 401 err_wrong_credentials, one_user)
unfolding ormus.User.MockRepository.does_user_exists_by_email
    ormus.User.MockRepository.get_user_by_email
user_login-refused_example =
    user_login-refused repository builtins validation runes validation-Obeys refusing signer config
      [] wrong one_user true refusing-IsAddress good_again refl (λ h. (_, refl, refl))

abbrev policy_error : Error
policy_error = with_message err_password_is_not_valid (new "validator.isPasswordValid")

is_weak :
    password_error repository builtins validation runes validation-Obeys bcrypt signer config []
      "weak"
    ≡ some policy_error
unfolding is_password_valid
is_weak = refl

policy_text : error_text policy_error ≡ some "password is not valid"
unfolding error_text with_message new
policy_text = refl

abbrev internal_broker : Table (Channel (String → State → State) (Unit {0}))
internal_broker = user_service.internal_broker

ann-IsAddress :
    IsAddress repository builtins validation runes validation-Obeys bcrypt signer config
      internal_broker "ann@example.com"
ann-IsAddress = record { required = refl; matches = refl }

ann_password :
    password_error repository builtins validation runes validation-Obeys bcrypt signer config
      internal_broker "HeavY!234"
    ≡ none
unfolding is_password_valid
ann_password = refl

ann-IsFilled :
    IsFilled builtins validation runes validation-Obeys bcrypt signer config internal_broker
      register_ann
ann-IsFilled = record {
  named = refl;
  short = refl;
  address = ann-IsAddress;
  password = ann_password;
}

register_user-twice_example :
    let again =
      registers builtins validation runes validation-Obeys bcrypt signer config internal_broker
        register_ann in
    let first = again no_news in
    let second = again first.1 in
    (first.0 ≡ registered (record { id = "new_id"; email = "ann@example.com" }))
    × (first.1.announced ≡ "new_id" ∷ [])
    × (second
        ≡ (fields_reply 422 "invalid input" (("email", err_auth_user_existing) ∷ []), first.1))
register_user-twice_example =
    register_user-twice builtins validation runes validation-Obeys bcrypt signer config
      internal_broker register_ann register_ann no_news "#HeavY!234" broker_channel ann-IsFilled
      ann-IsFilled refl refl refl refl has_channel refl
