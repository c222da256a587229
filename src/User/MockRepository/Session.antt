-- ===== src/User/MockRepository/Session.antt =====
-- To register and then to log in, over the repository in memory.
use ormus.Prelude.{String, ◌≡◌, refl, true, false, List, [], ◌∷◌, ◌++◌, lookup, some, Exec, ok}
use ormus.Channel.{Channel, get_input_channel}
use ormus.User.{
  User, zero_user, RegisterRequest, Bcrypt, Signer, Repository, Service, register,
  create_default_project,
}
use ormus.User.MockRepository.{MockRepository, get_user_by_email, does_user_exists_by_email}
use ormus.User.MockRepository as Mock

-- The state: the repository and what was sent to the broker's channel for new users.
pub record State : Type 0 where
  pub users : MockRepository
  pub announced : List String

abbrev pub on_users : {A : Type 0} → Exec MockRepository A → Exec State A
on_users m s = let (o, u) = m s.users in (o, record s { users = u })

abbrev pub repository : Repository State
repository = record {
  register = λ u. on_users (Mock.register u);
  get_user_by_email = λ e. on_users (get_user_by_email e);
  does_user_exists_by_email = λ e. on_users (does_user_exists_by_email e);
}

abbrev pub announce : String → State → State
announce id s = record s { announced = s.announced ++ id ∷ [] }

module _ (b : Bcrypt) (sign : Signer) (svc : Service State) where
  -- The user that the repository keeps, and the state after the registration.
  abbrev pub kept_user : RegisterRequest → String → User
  kept_user req hash = record zero_user {
    id = "new_id";
    email = req.email;
    password = hash;
    is_active = true;
  }

  abbrev pub registered : RegisterRequest → String → State → State
  registered req hash s = record {
    users = record s.users { users = s.users.users ++ kept_user req hash ∷ [] };
    announced = s.announced ++ "new_id" ∷ [];
  }

  pub register-ok :
      (req : RegisterRequest) (s : State) (hash : String)
      (c : Channel (String → State → State) (Unit {0}))
      → svc.repo ≡ repository
      → ((t : State) → svc.user_validator.validate_register_request req t ≡ (ok tt, t))
      → lookup create_default_project svc.internal_broker ≡ some c
      → c.input_channel ≡ announce
      → b.hash_password req.password ≡ ok hash
      → s.users.has_err ≡ false
      → register b sign svc req s
        ≡ (ok (record { id = "new_id"; email = req.email }), registered req hash s)
  unfolding register Mock.register get_input_channel
  register-ok req s hash c mock registers there sends hashed works =
      rw (registers s, hashed, mock, works, there, sends) refl
