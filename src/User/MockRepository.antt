-- ===== src/User/MockRepository.antt =====
-- manager/mockRepo/usermock: the repository of users in memory.
pub mod Session
use ormus.Prelude.{
  ℕ, String, Bool, true, false, List, [], ◌∷◌, ◌++◌, Exec, ok, Error, plain, fail, return, str_eq,
  if◌then◌else◌,
}
use ormus.RichError.{new, with_message}
use ormus.User.{User, Repository, zero_user}

abbrev pub repo_err : String
repo_err = "repository error"

abbrev pub err_auth_user_not_found : String
err_auth_user_not_found = "user not found"

pub record MockRepository : Type 0 where
  pub users : List User
  pub has_err : Bool

abbrev pub default_user : User
default_user = record zero_user {
  id = "0000000000";
  email = "test@example.com";
  password = "$2a$10$GkuJxcHmx.wsVAVl3V/c3uuj75jWVE5awuxJVfoXzIQBA5zQvl572";
}

unfoldable pub new_mock_repository : Bool → MockRepository
new_mock_repository has_err = record { users = default_user ∷ []; has_err = has_err }

unfoldable pub register : User → Exec MockRepository User
register u m = if m.has_err then fail (plain repo_err) m else (
  ok (record u { id = "new_id" }),
  record m { users = m.users ++ record u { id = "new_id" } ∷ [] },
)

-- The loop over the users.
abbrev pub find_user : String → List User → Exec MockRepository User
find_user email [] = fail (with_message err_auth_user_not_found (new "MockRepo.GetUserByEmail"))
find_user email (u ∷ us) =
    let rest = find_user email us in if str_eq u.email email then return u else rest

unfoldable pub get_user_by_email : String → Exec MockRepository User
get_user_by_email email m = if m.has_err then fail (plain repo_err) m else find_user email m.users m

abbrev pub has_user : String → List User → Bool
has_user email [] = false
has_user email (u ∷ us) =
    let rest = has_user email us in if str_eq u.email email then true else rest

unfoldable pub does_user_exists_by_email : String → Exec MockRepository Bool
does_user_exists_by_email email m =
    if m.has_err then fail (plain repo_err) m else (ok (has_user email m.users), m)
