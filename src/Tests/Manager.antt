-- ===== src/Tests/Manager.antt =====
-- Users and sources over the repositories in memory.
use ormus.Prelude.{
  ℕ, String, ◌≡◌, refl, true, false, [], ◌∷◌, lookup, ok, some, str_eq, concat, ◌==◌,
}
use ormus.Channel.{Channel}
use ormus.Source.{AddSourceRequest, UpdateSourceRequest}
use ormus.Source.MockRepo.{mock_repo, new_mock_repository, MockRepo}
use ormus.Source.Routes.{Tokens, Validator, Request, serve, post_root}
use ormus.Source.Routes.Access.{serve-Refused, Refused}
use ormus.User.{
  Unicode, is_password_valid, JwtConfig, new_jwt, Bcrypt, Signer, Service, LoginRequest,
  RegisterRequest, create_default_project,
}
use ormus.User.Policy.{is_password_valid_lem}
use ormus.User.MockRepository.Session.{State, repository, announce}

abbrev add : String → AddSourceRequest
add name = record { name = name; description = "a website"; project_id = "p1" }

abbrev change : UpdateSourceRequest
change = record { name = "renamed"; description = "an app"; project_id = "p2"; status = "active" }

abbrev ann : String
ann = "ann"

abbrev tokens : Tokens String
tokens = record {
  parse_with_claims = λ t. ok (record { user_id = "YW5u"; valid = true });
  decode_string = λ t. ok "ann";
}

abbrev accepting : Validator MockRepo
accepting = record {
  validate_create_source_form = λ r s. (ok tt, s);
  validate_update_source_form = λ r s. (ok tt, s);
  validate_id_to_delete = λ r s. (ok tt, s);
}

abbrev request : Request
request = record {
  cookie = ok "Bearer abc";
  source_id = "source_id";
  bound_add = ok (add "first");
  bound_update = ok change;
}

serve-Refused_example :
    Refused
      (new_mock_repository false)
      (serve mock_repo accepting (ok "w1") tokens post_root request (new_mock_repository false))
serve-Refused_example =
    serve-Refused tokens mock_repo accepting (ok "w1") post_root request (new_mock_repository false)

-- Four runes, one of each class.
abbrev pub unicode : Unicode ℕ
unicode = record {
  is_number = λ r. r == 0;
  is_lower = λ r. r == 1;
  is_upper = λ r. r == 2;
  is_symbol = λ r. r == 3;
  is_punct = λ r. r == 4;
}

is_password_valid_lem_example : is_password_valid unicode (2 ∷ 1 ∷ 4 ∷ 0 ∷ []) ≡ true
is_password_valid_lem_example = is_password_valid_lem unicode (2 ∷ 1 ∷ 4 ∷ 0 ∷ [])

abbrev pub config : JwtConfig
config = record {
  secret_key = "k";
  access_expiration_time_in_day = 1;
  refresh_expiration_time_in_day = 7;
  access_subject = "ac";
  refresh_subject = "rt";
}

-- Stand-ins for the two libraries: the hash of a password and the text of a token show their parts.
abbrev pub bcrypt : Bcrypt
bcrypt = record {
  hash_password = λ p. ok (concat "#" p);
  check_password_hash = λ p h. str_eq (concat "#" p) h;
}

abbrev pub signer : Signer
signer = record { signed_string = λ k s d u. ok (concat s u); encode_to_string = λ u. u }

abbrev pub broker_channel : Channel (String → State → State) (Unit {0})
broker_channel = record {
  mode = "both";
  input_channel = announce;
  output_channel = tt;
  number_instants = 1;
  max_retry_policy = 5;
}

abbrev pub user_service : Service State
user_service = record {
  repo = repository;
  jwt = new_jwt config;
  user_validator = record {
    validate_login_request = λ r s. (ok tt, s);
    validate_register_request = λ r s. (ok tt, s);
  };
  internal_broker = ("CreateDefaultProject", broker_channel) ∷ [];
}

abbrev pub no_news : State
no_news = record { users = record { users = []; has_err = false }; announced = [] }

abbrev pub register_ann : RegisterRequest
register_ann = record { name = "ann"; email = "ann@example.com"; password = "HeavY!234" }

abbrev pub login_ann : LoginRequest
login_ann = record { email = "ann@example.com"; password = "HeavY!234" }

pub has_channel : lookup create_default_project user_service.internal_broker ≡ some broker_channel
unfolding lookup
has_channel = refl
