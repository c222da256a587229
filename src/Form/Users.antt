-- ===== src/Form/Users.antt =====
-- The forms of users: `ValidateLoginRequest` and `ValidateRegisterRequest` of
-- manager/validator/uservalidator.
use ormus.Prelude.{String, List, [], ◌∷◌, Exec, return, fail, if◌then◌else◌}
use ormus.RichError.{new, with_message}
use ormus.Form.{required, length_between, matches, by_rule, Field, Validation, report, reported}
use ormus.User.{LoginRequest, RegisterRequest, Repository, Validator, Unicode, is_password_valid}
use ormus.User.Registered.{is_user_registered, is_email_already_registered}

abbrev pub email_regex : String
email_regex = "^[a-z0-9._%+\\-]+@[a-z0-9.\\-]+\\.[a-z]{2,4}$"

abbrev pub err_email_is_not_valid : String
err_email_is_not_valid = "email is not valid"

abbrev pub err_password_is_not_valid : String
err_password_is_not_valid = "password is not valid"

-- The policy, on the runes of a password.
pub record Runes (Rune : Type 0) : Type 0 where
  pub classes : Unicode Rune
  pub runes : String → List Rune

module _ {S Rune : Type 0} (lib : Validation S) (repo : Repository S) (r : Runes Rune) where
  unfoldable pub password_rule : String → Exec S (Unit {0})
  unfolding is_password_valid
  password_rule password =
      if is_password_valid r.classes (r.runes password)
      then return tt
      else fail (with_message err_password_is_not_valid (new "validator.isPasswordValid"))

  abbrev pub email_field : String → (String → Exec S (Unit {0})) → Field S
  email_field email rule = record {
    name = "email";
    value = email;
    rules = required ∷ matches email_regex err_email_is_not_valid ∷ by_rule rule ∷ [];
  }

  abbrev pub password_field : String → Field S
  password_field password = record {
    name = "password";
    value = password;
    rules = required ∷ length_between 8 32 ∷ by_rule password_rule ∷ [];
  }

  abbrev pub name_field : String → Field S
  name_field name = record {
    name = "name";
    value = name;
    rules = required ∷ length_between 3 50 ∷ [];
  }

  unfoldable pub validate_login_request : LoginRequest → Exec S (Unit {0})
  unfolding report password_rule is_user_registered
  validate_login_request req s = reported "userValidation.ValidateLoginRequest" (
      lib.validate_struct
        (email_field req.email (is_user_registered repo) ∷ password_field req.password ∷ []) s)

  unfoldable pub validate_register_request : RegisterRequest → Exec S (Unit {0})
  unfolding report password_rule is_email_already_registered
  validate_register_request req s = reported "validation.register" (
      lib.validate_struct
        (name_field req.name
          ∷ email_field req.email (is_email_already_registered repo)
          ∷ password_field req.password
          ∷ [])
        s)

  abbrev pub user_validator : Validator S
  user_validator = record {
    validate_login_request = validate_login_request;
    validate_register_request = validate_register_request;
  }
