-- ===== src/User/Registered.antt =====
-- The two rules of manager/validator/uservalidator that ask the repository for an address:
-- `isUserRegistered` (login.go) and `isEmailAlreadyRegistered` (register.go). The library of rules
-- calls them with the text of the field.
use ormus.Prelude.{
  String, ◌≡◌, refl, Option, none, some, Bool, true, false, Exec, Outcome, ok, err, panic, Error,
  fail, return, if◌then◌else◌, Bool-cases, inl, inr,
}
use ormus.RichError.{
  new, with_message, with_wrapped_error, err_some_thing_went_wrong, message, error_text,
}
use ormus.User.{Repository}
use ormus.User.MockRepository.{
  MockRepository, does_user_exists_by_email, register, get_user_by_email, has_user,
  err_auth_user_not_found,
}

abbrev pub err_auth_user_existing : String
err_auth_user_existing = "a user with this email is already registered"

abbrev pub repository_failed : String → Error → Error
repository_failed operation e =
    with_message err_some_thing_went_wrong (with_wrapped_error e (new operation))

module _ {S : Type 0} (repo : Repository S) where
  abbrev pub unless_missing : Outcome Bool → Exec S (Unit {0})
  unless_missing (ok exists) =
      if exists
      then return tt
      else fail (with_message err_auth_user_not_found (new "validator.isUserRegistered"))
  unless_missing (err e) = fail (repository_failed "validator.isUserRegistered" e)
  unless_missing panic = λ s. (panic, s)

  unfoldable pub is_user_registered : String → Exec S (Unit {0})
  is_user_registered email s =
      let (exists, s') = repo.does_user_exists_by_email email s in unless_missing exists s'

  abbrev pub unless_existing : Outcome Bool → Exec S (Unit {0})
  unless_existing (ok exists) =
      if exists
      then fail (with_message err_auth_user_existing (new "validator.isEmailAlreadyRegistered"))
      else return tt
  unless_existing (err e) = fail (repository_failed "validator.isEmailAlreadyRegistered" e)
  unless_existing panic = λ s. (panic, s)

  unfoldable pub is_email_already_registered : String → Exec S (Unit {0})
  is_email_already_registered email s =
      let (exists, s') = repo.does_user_exists_by_email email s in unless_existing exists s'

abbrev pub mock_repository : Repository MockRepository
mock_repository = record {
  register = register;
  get_user_by_email = get_user_by_email;
  does_user_exists_by_email = does_user_exists_by_email;
}

-- The message that a failed rule shows.
abbrev pub shown : Outcome (Unit {0}) → Option String
shown (ok _) = none
shown (err e) = message e
shown panic = none

-- Over the repository in memory, where it works, exactly one of the two rules accepts an address,
-- by whether a user has it, and the other says why it does not; where it fails, both refuse and
-- show that something went wrong. Neither changes the repository.
pub one_rule_accepts :
    (email : String) (m : MockRepository)
    → let known = is_user_registered mock_repository email m in
      let unknown = is_email_already_registered mock_repository email m in
      (known.1 ≡ m)
      × (unknown.1 ≡ m)
      × (m.has_err ≡ false
          → has_user email m.users ≡ true
          → (known.0 ≡ ok tt) × (shown unknown.0 ≡ some err_auth_user_existing))
      × (m.has_err ≡ false
          → has_user email m.users ≡ false
          → (shown known.0 ≡ some err_auth_user_not_found) × (unknown.0 ≡ ok tt))
      × (m.has_err ≡ true
          → (shown known.0 ≡ some err_some_thing_went_wrong)
            × (shown unknown.0 ≡ some err_some_thing_went_wrong))
unfolding is_user_registered is_email_already_registered does_user_exists_by_email message
    error_text with_message new with_wrapped_error
one_rule_accepts email m = (
  elim (Bool-cases m.has_err) [
    | inl e ↦ rw e refl
    | inr e ↦ elim (Bool-cases (has_user email m.users)) [
      | inl h ↦ rw (e, h) refl
      | inr h ↦ rw (e, h) refl
    ]
  ],
  elim (Bool-cases m.has_err) [
    | inl e ↦ rw e refl
    | inr e ↦ elim (Bool-cases (has_user email m.users)) [
      | inl h ↦ rw (e, h) refl
      | inr h ↦ rw (e, h) refl
    ]
  ],
  λ e h. rw (e, h) (refl, refl),
  λ e h. rw (e, h) (refl, refl),
  λ e. rw e (refl, refl),
)
