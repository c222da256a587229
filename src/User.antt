-- ===== src/User.antt =====
-- The users of the manager: manager/entity/user.go, the requests and responses of param/,
-- manager/service/userservice (login.go, register.go), manager/service/authservice/jwt.go and the
-- password policy of manager/validator/uservalidator/login.go. bcrypt, the library of tokens and
-- encoding/base64 are parameters, and so is the library of rules with which the validators read
-- the forms. `MockRepository` is the repository in memory.
pub mod MockRepository
pub mod Policy
pub mod Registered
pub mod Routes
pub mod Expiration
pub mod IsValid
pub mod Scylla
use ormus.Prelude.{
  ℕ, ◌+◌, ◌-◌, ◌*◌, ◌%◌, ◌^◌, String, Option, none, some, Bool, true, false, ◌&&◌, ◌||◌, List, [],
  ◌∷◌, Table, Exec, Outcome, ok, err, panic, Error, nil, ◌>>=◌, ◌>>◌, return, fail, str_eq, ltb,
  if◌then◌else◌,
}
use ormus.RichError.{new, with_wrapped_error, with_message}
use ormus.Channel.{Channel, get_input_channel}

pub record User : Type 0 where
  pub id : String
  pub created_at : ℕ
  pub updated_at : ℕ
  pub deleted_at : Option ℕ
  pub email : String
  pub password : String
  pub is_active : Bool

abbrev pub zero_user : User
zero_user = record {
  id = "";
  created_at = 0;
  updated_at = 0;
  deleted_at = none;
  email = "";
  password = "";
  is_active = false;
}

pub record LoginRequest : Type 0 where
  pub email : String
  pub password : String

pub record UserInfo : Type 0 where
  pub id : String
  pub created_at : ℕ
  pub updated_at : ℕ
  pub deleted_at : Option ℕ
  pub email : String

pub record Token : Type 0 where
  pub access_token : String
  pub refresh_token : String

pub record LoginResponse : Type 0 where
  pub user : UserInfo
  pub tokens : Token

pub record RegisterRequest : Type 0 where
  pub name : String
  pub email : String
  pub password : String

pub record RegisterResponse : Type 0 where
  pub id : String
  pub email : String

-- A `time.Duration` is an `int64`, here as the number modulo 2 ^ 64 that stands for it.
pub record JwtConfig : Type 0 where
  pub secret_key : String
  pub access_expiration_time_in_day : ℕ
  pub refresh_expiration_time_in_day : ℕ
  pub access_subject : String
  pub refresh_subject : String

abbrev pub nanoseconds_in_day : ℕ
nanoseconds_in_day = 24 * 3600000000000

unfoldable pub new_jwt : JwtConfig → JwtConfig
new_jwt cfg = record cfg {
  access_expiration_time_in_day = (cfg.access_expiration_time_in_day * nanoseconds_in_day) % 2 ^ 64;
  refresh_expiration_time_in_day =
      (cfg.refresh_expiration_time_in_day * nanoseconds_in_day) % 2 ^ 64;
}

abbrev pub err_jwt_empty_user : String
err_jwt_empty_user = "for generating a JWT token, email is required"

abbrev pub err_wrong_credentials : String
err_wrong_credentials = "username or password isn't correct"

-- `SignedString` for the key, of the claims' subject, lifetime and user; `EncodeToString`.
pub record Signer : Type 0 where
  pub signed_string : String → String → ℕ → String → Outcome String
  pub encode_to_string : String → String

abbrev pub wrapped : {A : Type 0} → String → Outcome A → Outcome A
wrapped operation (ok a) = ok a
wrapped operation (err e) = err (with_wrapped_error e (new operation))
wrapped operation panic = panic

unfoldable pub create_token : Signer → JwtConfig → String → String → ℕ → Outcome String
create_token sign configs user_id subject expire_duration =
    if str_eq user_id ""
    then err (with_message err_jwt_empty_user (new "jwt.createToken"))
    else wrapped "jwt.createToken" (
        sign.signed_string configs.secret_key subject expire_duration
          (sign.encode_to_string user_id))

unfoldable pub create_access_token : Signer → JwtConfig → User → Outcome String
unfolding create_token
create_access_token sign configs user =
    create_token sign configs user.id configs.access_subject configs.access_expiration_time_in_day

unfoldable pub create_refresh_token : Signer → JwtConfig → User → Outcome String
unfolding create_token
create_refresh_token sign configs user =
    create_token sign configs user.id configs.refresh_subject configs.refresh_expiration_time_in_day

-- `isPasswordValid`, with the classes of the package unicode, over the runes of the password.
pub record Unicode (Rune : Type 0) : Type 0 where
  pub is_number : Rune → Bool
  pub is_lower : Rune → Bool
  pub is_upper : Rune → Bool
  pub is_symbol : Rune → Bool
  pub is_punct : Rune → Bool

pub record Seen : Type 0 where
  pub lower : Bool
  pub upper : Bool
  pub numeric : Bool
  pub special : Bool

module _ {Rune : Type 0} (u : Unicode Rune) where
  unfoldable pub see : Rune → Seen → Seen
  see val seen =
      if u.is_number val
      then record seen { numeric = true }
      else if u.is_lower val
      then record seen { lower = true }
      else if u.is_upper val
      then record seen { upper = true }
      else if u.is_symbol val || u.is_punct val
      then record seen { special = true }
      else seen

  unfoldable pub see_all : List Rune → Seen → Seen
  unfolding see
  see_all [] seen = seen
  see_all (val ∷ vals) seen = see_all vals (see val seen)

  unfoldable pub is_password_valid : List Rune → Bool
  unfolding see_all
  is_password_valid password =
      let seen =
        see_all password
          (record { lower = false; upper = false; numeric = false; special = false }) in
      seen.numeric && seen.lower && seen.upper && seen.special

pub record Repository (S : Type 0) : Type 0 where
  pub register : User → Exec S User
  pub get_user_by_email : String → Exec S User
  pub does_user_exists_by_email : String → Exec S Bool

pub record Validator (S : Type 0) : Type 0 where
  pub validate_login_request : LoginRequest → Exec S (Unit {0})
  pub validate_register_request : RegisterRequest → Exec S (Unit {0})

pub record Bcrypt : Type 0 where
  pub hash_password : String → Outcome String
  pub check_password_hash : String → String → Bool

-- To send on an input channel of the internal broker changes the state, as `In` says.
pub record Service (S : Type 0) : Type 0 where
  pub repo : Repository S
  pub jwt : JwtConfig
  pub user_validator : Validator S
  pub internal_broker : Table (Channel (String → S → S) (Unit {0}))

abbrev pub create_default_project : String
create_default_project = "CreateDefaultProject"

abbrev pub lift : {S A : Type 0} → Outcome A → Exec S A
lift o s = (o, s)

abbrev pub wrapping : {S A : Type 0} → String → Exec S A → Exec S A
wrapping operation m s = let (o, s') = m s in (wrapped operation o, s')

module _ {S : Type 0} (b : Bcrypt) (sign : Signer) (svc : Service S) where
  abbrev pub check_password : LoginRequest → User → Exec S (Unit {0})
  check_password req user =
      if b.check_password_hash req.password user.password
      then return tt
      else fail (with_message err_wrong_credentials (with_wrapped_error nil (new "Login")))

  unfoldable pub login : LoginRequest → Exec S LoginResponse
  unfolding create_access_token create_refresh_token
  login req = do
    svc.user_validator.validate_login_request req
    user ← wrapping "Login" (svc.repo.get_user_by_email req.email)
    check_password req user
    access_token ← lift (wrapped "Login" (create_access_token sign svc.jwt user))
    refresh_token ← lift (wrapped "Login" (create_refresh_token sign svc.jwt user))
    return (record {
      user = record {
        id = user.id;
        created_at = user.created_at;
        updated_at = user.updated_at;
        deleted_at = user.deleted_at;
        email = user.email;
      };
      tokens = record { access_token = access_token; refresh_token = refresh_token };
    })

  unfoldable pub register : RegisterRequest → Exec S RegisterResponse
  unfolding get_input_channel
  register req = do
    svc.user_validator.validate_register_request req
    hashed_password ← lift (wrapped "register.hash" (b.hash_password req.password))
    created_user ← wrapping "register.repo" (
        svc.repo.register
          (record zero_user { email = req.email; password = hashed_password; is_active = true }))
    in_out_chan ← lift (
        wrapped "register.internalBroker"
          (get_input_channel svc.internal_broker create_default_project))
    (λ s. (ok tt, in_out_chan created_user.id s))
    return (record { id = created_user.id; email = created_user.email })
