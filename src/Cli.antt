-- ===== src/Cli.antt =====
-- The command line client: cli/api/client.go with the request types of cli/api, the commands of
-- cli/cmd/config and the login of cli/cmd/user. The file of the configuration, encoding/json and
-- net/http are parameters, over a state that holds the files and the network; what a command
-- prints is left out but for the value of `get`. A panic ends the command.
pub mod Session
use ormus.Prelude.{
  ℕ, String, Option, none, some, Bool, true, false, ◌||◌, ◌==◌, not, List, [], ◌∷◌, Table, Exec,
  Outcome, ok, err, panic, Error, plain, ◌>>=◌, ◌>>◌, return, fail, concat, str_eq, if◌then◌else◌,
}

-- `types.Request`; the field Header, which no request sets, is left out.
pub record Request : Type 0 where
  pub path : String
  pub method : String
  pub authorization_required : Bool
  pub body : Table String

pub record Config : Type 0 where
  pub token : String
  pub base_url : String

-- What is sent: the method, the address, the body and the header of the authorization.
pub record HttpRequest : Type 0 where
  pub method : String
  pub url : String
  pub body : String
  pub authorization : Option String

pub record HttpResponse : Type 0 where
  pub status_code : ℕ
  pub body : Outcome String

pub record System (S : Type 0) : Type 0 where
  pub file_exists : S → Bool
  -- open to write, which empties the file; write; open to read and read all
  pub truncate : Exec S (Unit {0})
  pub write : String → Exec S (Unit {0})
  pub read_all : Exec S String
  pub marshal : Config → Outcome String
  pub unmarshal : String → Outcome Config
  pub unmarshal_table : String → Outcome (Table String)
  pub unmarshal_token : String → Outcome String
  pub new_request : HttpRequest → Outcome (Unit {0})
  pub do_request : HttpRequest → Exec S HttpResponse

-- A client, and the system that it runs on.
pub record State (S : Type 0) : Type 0 where
  pub config : Config
  pub system : S

-- `if err != nil { panic(…) }`
abbrev pub must : {A : Type 0} → Outcome A → Outcome A
must (ok a) = ok a
must (err e) = panic
must panic = panic

abbrev pub sys : {S A : Type 0} → Exec S A → Exec (State S) A
sys m s = let (o, t) = m s.system in (must o, record s { system = t })

abbrev pub pure_must : {S A : Type 0} → Outcome A → Exec (State S) A
pure_must o s = (must o, s)

abbrev pub with_config : {S : Type 0} → Config → Exec (State S) (Unit {0})
with_config c s = (ok tt, record s { config = c })

-- `Login` of cli/api/user/login.go: its body has the two values as keys.
unfoldable pub login_request : String → String → Request
login_request email password = record {
  path = "login";
  method = "POST";
  authorization_required = false;
  body = (email, email) ∷ (password, password) ∷ [];
}

module _ {S : Type 0} (os : System S) where
  unfoldable pub store_config : Exec (State S) (Unit {0})
  store_config = do sys os.truncate; j ← (λ s. (must (os.marshal s.config), s)); sys (os.write j)

  unfoldable pub store_token : String → Exec (State S) (Unit {0})
  unfolding store_config
  store_token token s = store_config (record s { config = record s.config { token = token } })

  unfoldable pub set_config : String → String → Exec (State S) (Unit {0})
  unfolding store_config
  set_config key value s =
      if str_eq key "token"
      then store_config (record s { config = record s.config { token = value } })
      else if str_eq key "base_url"
      then store_config (record s { config = record s.config { base_url = value } })
      else fail (plain (concat "key is invalid " key)) s

  unfoldable pub get_config : String → State S → Outcome String
  get_config key s =
      if str_eq key "token"
      then ok s.config.token
      else if str_eq key "base_url"
      then ok s.config.base_url
      else err (plain (concat "key is invalid " key))

  abbrev pub and_table : Outcome String → Outcome (Table String)
  and_table (ok j) = os.unmarshal_table j
  and_table (err e) = err e
  and_table panic = panic

  unfoldable pub list_config : State S → Outcome (Table String)
  list_config s = and_table (os.marshal s.config)

  unfoldable pub init_config : Exec (State S) (Unit {0})
  unfolding store_config
  init_config s =
      store_config
        (record s { config = record { token = ""; base_url = "http://manager.ormus.local" } })

  abbrev pub read_file : Exec (State S) (Unit {0})
  read_file = do j ← sys os.read_all; config ← pure_must (os.unmarshal j); with_config config

  unfoldable pub read_config : Exec (State S) (Unit {0})
  unfolding init_config
  read_config s = if os.file_exists s.system then read_file s else init_config s

  -- `New`
  unfoldable pub new_client : S → Outcome (Unit {0}) × State S
  unfolding read_config
  new_client t = read_config (record { config = record { token = ""; base_url = "" }; system = t })

  unfoldable pub get_url : String → Config → String
  get_url path c = concat (concat c.base_url "/") path

  -- The body of the request is not read: what is sent is an empty buffer.
  unfoldable pub http_request : Request → Config → HttpRequest
  unfolding get_url
  http_request req c = record {
    method = req.method;
    url = get_url req.path c;
    body = "";
    authorization = if req.authorization_required then some (concat "Bearer " c.token) else none;
  }

  abbrev pub do_sent : HttpRequest → Exec (State S) HttpResponse
  do_sent r s = let (o, t) = os.do_request r s.system in (o, record s { system = t })

  unfoldable pub send_request : Request → Exec (State S) HttpResponse
  unfolding http_request
  send_request req s =
      let r = http_request req s.config in (pure_must (os.new_request r) >> do_sent r) s

  abbrev pub must_send : Request → Exec (State S) HttpResponse
  must_send req s = let (o, t) = send_request req s in (must o, t)

  -- The command `user login`, of the values of its two flags.
  unfoldable pub user_login : String → String → Exec (State S) (Unit {0})
  unfolding login_request send_request store_token
  user_login email password s =
      if str_eq password "" || str_eq email ""
      then (ok tt, s)
      else (do
        resp ← must_send (login_request email password)
        j ← pure_must resp.body
        (if resp.status_code == 200 then return tt else λ s. (panic, s))
        token ← pure_must (os.unmarshal_token j)
        store_token token)
          s

  unfoldable pub read_token : State S → String
  read_token s = s.config.token

  -- The commands `config set`, `config get` and `config list`, which print what they return.
  unfoldable pub config_set : String → String → Exec (State S) (Unit {0})
  unfolding set_config
  config_set key value s =
      if str_eq key "" || str_eq value ""
      then (panic, s)
      else let (o, t) = set_config key value s in (must o, t)

  unfoldable pub config_get : String → State S → Outcome String
  unfolding get_config
  config_get key s = if str_eq key "" then panic else must (get_config key s)

  unfoldable pub config_list : State S → Outcome (Table String)
  unfolding list_config
  config_list s = must (list_config s)
