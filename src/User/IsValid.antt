-- ===== src/User/IsValid.antt =====
-- manager/service/userservice/isvalid.go. A repository that answers without an error answers a user:
-- the branch for none is left out, since neither repository comes to it.
use ormus.Prelude.{String, ◌≢◌, Bool, true, false, Exec, Outcome, ok, err, panic}
use ormus.RichError.{new, with_message, with_wrapped_error, err_some_thing_went_wrong}
use ormus.User.{User, Service}

abbrev pub valid_user : Outcome User → Outcome Bool
valid_user (ok u) = ok true
valid_user (err e) = err (
    with_message err_some_thing_went_wrong (with_wrapped_error e (new "userservice.IsUserIDValid")))
valid_user panic = panic

unfoldable pub is_user_id_valid : {S : Type 0} → Service S → String → Exec S Bool
is_user_id_valid svc email s = let (o, t) = svc.repo.get_user_by_email email s in (valid_user o, t)

valid_user-≢-false : (o : Outcome User) → valid_user o ≢ ok false
valid_user-≢-false (ok u) h = cc
valid_user-≢-false (err e) h = cc
valid_user-≢-false panic h = cc

-- An address that no user has is an error, and never a plain no.
is_user_id_valid-≢-false :
    {S : Type 0} (svc : Service S) (email : String) (s : S)
    → (is_user_id_valid svc email s).0 ≢ ok false
unfolding is_user_id_valid
is_user_id_valid-≢-false svc email s = valid_user-≢-false (svc.repo.get_user_by_email email s).0
