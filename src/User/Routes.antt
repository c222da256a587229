-- ===== src/User/Routes.antt =====
-- manager/delivery/httpserver/userhandler: `UserLogin` (login.go) and `RegisterUser` (register.go).
-- The result of echo's binding is a parameter; a reply is a status code with a message, with the
-- errors of a form, or with the service's response.
pub mod Answers
pub mod Registers
use ormus.Prelude.{
  ℕ, String, Option, none, some, Bool, false, List, Table, lookup, Exec, Outcome, ok, err, panic,
  Error, nil, plain, rich, invalid, str_eq, if◌then◌else◌,
}
use ormus.RichError.{http_error, error_text}
use ormus.User.{
  LoginRequest, LoginResponse, RegisterRequest, RegisterResponse, Bcrypt, Signer, Service, login,
  register, err_wrong_credentials,
}

pub data Reply : Type 0 where
  message_reply : ℕ → String → Reply
  fields_reply : ℕ → String → List (String × String) → Reply
  logged_in : LoginResponse → Reply
  registered : RegisterResponse → Reply
  crash : Reply

abbrev pub err_bad_request : String
err_bad_request = "Bad request"

abbrev pub says : Option String → String → Bool
says none text = false
says (some s) text = str_eq s text

abbrev pub invalid_reply : List (String × String) → Option (String × ℕ) → Reply
invalid_reply fields none = crash
invalid_reply fields (some (msg, code)) = fields_reply code msg fields

abbrev pub invalid_login : List (String × String) → Option (String × ℕ) → Reply
invalid_login fields none = crash
invalid_login fields (some (msg, code)) =
    if says (lookup "email" fields) "user not found"
    then message_reply 401 err_wrong_credentials
    else fields_reply code msg fields

abbrev pub refused_login : Option String → Reply
refused_login none = crash
refused_login (some text) =
    if str_eq text err_wrong_credentials
    then message_reply 401 err_wrong_credentials
    else message_reply 400 err_bad_request

-- The error that a service returns is not nil.
unfoldable pub login_reply : Outcome LoginResponse → Reply
unfolding http_error error_text
login_reply (ok response) = logged_in response
login_reply (err (invalid fields e)) = invalid_login fields (http_error e)
login_reply (err (plain s)) = refused_login (error_text (plain s))
login_reply (err (rich o w m k)) = refused_login (error_text (rich o w m k))
login_reply (err nil) = crash
login_reply panic = crash

unfoldable pub register_reply : Outcome RegisterResponse → Reply
unfolding http_error
register_reply (ok response) = registered response
register_reply (err (invalid fields e)) = invalid_reply fields (http_error e)
register_reply (err (plain s)) = message_reply 400 err_bad_request
register_reply (err (rich o w m k)) = message_reply 400 err_bad_request
register_reply (err nil) = crash
register_reply panic = crash

module _ {S : Type 0} (b : Bcrypt) (sign : Signer) (svc : Service S) where
  unfoldable pub user_login : Outcome LoginRequest → S → Reply × S
  unfolding login_reply login
  user_login (ok req) s = let (o, t) = login b sign svc req s in (login_reply o, t)
  user_login (err e) s = (message_reply 400 err_bad_request, s)
  user_login panic s = (crash, s)

  unfoldable pub register_user : Outcome RegisterRequest → S → Reply × S
  unfolding register_reply register
  register_user (ok req) s = let (o, t) = register b sign svc req s in (register_reply o, t)
  register_user (err e) s = (message_reply 400 err_bad_request, s)
  register_user panic s = (crash, s)
