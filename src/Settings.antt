-- ===== src/Settings.antt =====
-- config: the configuration of all programs, `Default` of default.go and the loading of loader.go.
-- koanf, its providers, and the functions of the package strings are parameters. The parts of the
-- configuration that are empty in `Default` (redis, etcd, source and destination) are of a type of
-- their own. `log.Fatalf` ends the program; `log.Printf` is left out.
pub mod Layers
use ormus.Prelude.{
  ℕ, String, Option, none, some, List, [], ◌∷◌, Exec, Error, Outcome, ok, err, panic, return, ◌>>=◌,
  ◌>>◌, ◌*◌,
}
use ormus.User.{JwtConfig}
use ormus.Database as Database
use ormus.Database.{second}

pub record InternalBrokerConfig : Type 0 where
  pub channel_size : ℕ
  pub number_instant : ℕ
  pub max_retry_policy : ℕ

pub record ManagerConfig : Type 0 where
  pub jwt_config : JwtConfig
  pub internal_broker_config : InternalBrokerConfig
  pub scylla_db_config : Database.Config

pub record Config (Rest : Type 0) : Type 0 where
  pub rest : Rest
  pub manager : ManagerConfig
  pub scylladb : Database.Config

-- The zero value of Go.
abbrev pub zero_scylladb : Database.Config
zero_scylladb = record {
  hosts = [];
  consistency = 0;
  keyspace = "";
  timeout_cluster = 0;
  num_retries = 0;
  min_retry_delay = 0;
  max_retry_delay = 0;
}

abbrev pub timeout_cluster : ℕ
timeout_cluster = 5 * second

abbrev pub num_retries : ℕ
num_retries = 5

abbrev pub min_retry_delay : ℕ
min_retry_delay = second

abbrev pub max_retry_delay : ℕ
max_retry_delay = 10 * second

abbrev pub channel_size : ℕ
channel_size = 100

abbrev pub number_instant : ℕ
number_instant = 100

abbrev pub max_retry_policy : ℕ
max_retry_policy = 10

-- `Default`, with the zero value of the other parts and the consistency `gocql.One`.
unfoldable pub default_config : {Rest : Type 0} → Rest → ℕ → Config Rest
default_config zero_rest gocql_one = record {
  rest = zero_rest;
  scylladb = record {
    hosts = "127.0.0.1:9042" ∷ [];
    consistency = gocql_one;
    keyspace = "default";
    timeout_cluster = timeout_cluster;
    num_retries = num_retries;
    min_retry_delay = min_retry_delay;
    max_retry_delay = max_retry_delay;
  };
  manager = record {
    jwt_config = record {
      secret_key = "Ormus_jwt";
      access_expiration_time_in_day = 7;
      refresh_expiration_time_in_day = 28;
      access_subject = "ac";
      refresh_subject = "rt";
    };
    internal_broker_config = record {
      channel_size = channel_size;
      number_instant = number_instant;
      max_retry_policy = max_retry_policy;
    };
    scylla_db_config = zero_scylladb;
  };
}

abbrev pub default_prefix : String
default_prefix = "ORMUS_"

abbrev pub default_delimiter : String
default_delimiter = "."

abbrev pub default_separator : String
default_separator = "__"

abbrev pub default_yaml_file_path : String
default_yaml_file_path = "config.yml"

pub record Options : Type 0 where
  pub prefix : String
  pub delimiter : String
  pub separator : String
  pub yaml_file_path : String
  pub callback_env : String → String

-- `ToLower`, `TrimPrefix` and `ReplaceAll` of the package strings, in the order of their arguments.
pub record Strings : Type 0 where
  pub to_lower : String → String
  pub trim_prefix : String → String → String
  pub replace_all : String → String → String → String

unfoldable pub default_callback_env : Strings → String → String
default_callback_env strings source =
    strings.replace_all (strings.to_lower (strings.trim_prefix source default_prefix))
      default_separator default_delimiter

-- The providers of koanf: of a struct with its tags, of a YAML file, and of the environment.
pub data Provider (C : Type 0) : Type 0 where
  of_struct : C → Provider C
  of_file : String → Provider C
  of_env : String → String → (String → String) → Provider C

-- What is loaded stands in a value of koanf; files and environment are part of the library.
-- `unmarshal` is that of the empty path, into a configuration that is there.
pub record Library (K C : Type 0) : Type 0 where
  pub new : String → K
  pub load : Provider C → K → Option Error × K
  pub unmarshal : K → C → Option Error × C

module _ {K Rest : Type 0} (lib : Library K (Config Rest)) (zero_rest : Rest) (gocql_one : ℕ) where
  -- An error is logged, and the rest goes on.
  abbrev pub load_or_log : Provider (Config Rest) → K → K
  load_or_log provider k = (lib.load provider k).1

  abbrev pub or_fatal : {A : Type 0} → Option Error → A → Outcome A
  or_fatal none a = ok a
  or_fatal (some e) a = panic

  -- The three layers, the later over the earlier.
  unfoldable pub load_layers : Options → Outcome K
  unfolding default_config
  load_layers opt =
      let (e, k) =
        lib.load (of_struct (default_config zero_rest gocql_one)) (lib.new opt.separator) in
      or_fatal e (
        load_or_log (of_env opt.prefix opt.delimiter opt.callback_env)
          (load_or_log (of_file opt.yaml_file_path) k))

  abbrev pub unmarshal_into : Outcome K → Exec (Config Rest) (Unit {0})
  unmarshal_into (ok k) c = let (e, c') = lib.unmarshal k c in (or_fatal e tt, c')
  unmarshal_into (err x) c = (err x, c)
  unmarshal_into panic c = (panic, c)

  -- `init`, on the variable of the package.
  unfoldable pub init : Strings → Exec (Config Rest) (Unit {0})
  unfolding load_layers default_callback_env
  init strings = unmarshal_into (
      load_layers (record {
        prefix = default_prefix;
        delimiter = default_delimiter;
        separator = default_delimiter;
        yaml_file_path = default_yaml_file_path;
        callback_env = default_callback_env strings;
      }))

  -- `New`, which writes the same variable.
  unfoldable pub new_config : Options → Exec (Config Rest) (Config Rest)
  unfolding load_layers
  new_config opt = do unmarshal_into (load_layers opt); λ c. (ok c, c)
