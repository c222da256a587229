-- ===== src/Database.antt =====
-- The way to ScyllaDB: adapter/scylladb (adaptor.go, sessionx.go), its scyllainitialize (init.go,
-- db.go), source/repository/scylladb/migrate/migration.go and `New` of
-- manager/repository/scyllarepo/db.go. The libraries are parameters: gocql with gocqlx, whose
-- sessions are numbers, and golang-migrate, whose sources and instances are numbers. `log.Fatal`
-- and `panic(err)` end the program alike. The logs and the policy that selects a host, which is a
-- constant, are left out.
pub mod Effects
pub mod Ready
use ormus.Prelude.{
  ℕ, String, Option, none, some, Bool, List, [], ◌∷◌, Exec, Error, Outcome, ok, err, panic, return,
  fail, or_panic, ◌>>=◌, ◌>>◌, ◌*◌, concat, if◌then◌else◌,
}
use ormus.Pipeline.Dialled.{fail_on_error}

pub record Config : Type 0 where
  pub hosts : List String
  pub consistency : ℕ
  pub keyspace : String
  pub timeout_cluster : ℕ
  pub num_retries : ℕ
  pub min_retry_delay : ℕ
  pub max_retry_delay : ℕ

-- `gocql.ClusterConfig` and `gocql.ExponentialBackoffRetryPolicy`, as far as they are set.
pub record RetryPolicy : Type 0 where
  pub num_retries : ℕ
  pub min : ℕ
  pub max : ℕ

pub record Cluster : Type 0 where
  pub hosts : List String
  pub consistency : ℕ
  pub keyspace : String
  pub timeout : ℕ
  pub retry_policy : RetryPolicy

pub record ScyllaDbConnection : Type 0 where
  pub consistency : ℕ
  pub keyspace : String
  pub hosts : List String

-- `wrap_session` is `gocqlx.WrapSession(cluster.CreateSession())`, `errorf` the `Errorf` of fmt
-- with a text before a wrapped error, `up` and `close` are those of a `migrate.Migrate`, and `is_no_change`
-- is `errors.Is` for `migrate.ErrNoChange`.
pub record Library (S : Type 0) : Type 0 where
  pub wrap_session : Cluster → Exec S ℕ
  pub exec_stmt : ℕ → String → Exec S (Unit {0})
  pub source : String → String → Exec S ℕ
  pub instance_with_source : String → ℕ → String → Exec S ℕ
  pub up : ℕ → Exec S (Unit {0})
  pub close : ℕ → S → (Option Error × Option Error) × S
  pub is_no_change : Error → Bool
  pub errorf : String → Error → Error

-- A duration is a number of nanoseconds.
abbrev pub second : ℕ
second = 1000000000

abbrev pub timeout_cluster : ℕ
timeout_cluster = 5 * second

abbrev pub num_retries : ℕ
num_retries = 5

abbrev pub min_retry_delay : ℕ
min_retry_delay = second

abbrev pub max_retry_delay : ℕ
max_retry_delay = 10 * second

unfoldable pub create_cluster : ScyllaDbConnection → Cluster
create_cluster conn = record {
  hosts = conn.hosts;
  consistency = conn.consistency;
  keyspace = conn.keyspace;
  timeout = timeout_cluster;
  retry_policy = record { num_retries = num_retries; min = min_retry_delay; max = max_retry_delay };
}

unfoldable pub create_keyspace_statement : String → String
create_keyspace_statement keyspace =
    concat (concat "CREATE KEYSPACE IF NOT EXISTS " keyspace)
      " WITH replication = {'class': 'SimpleStrategy', 'replication_factor': 1}"

unfoldable pub migration_db_url : String → String → String
migration_db_url host keyspace = concat (concat (concat "cassandra://" host) "/") keyspace

-- The migrations of one host.
pub record Manager : Type 0 where
  pub dir : String
  pub host : String
  pub keyspace : String

abbrev pub first : List String → Option String
first [] = none
first (host ∷ hosts) = some host

abbrev pub new_scylla_db_connection : ℕ → String → List String → ScyllaDbConnection
new_scylla_db_connection consistency keyspace hosts = record {
  consistency = consistency;
  keyspace = keyspace;
  hosts = hosts;
}

abbrev pub new_manager : String → String → String → Manager
new_manager dir host keyspace = record { dir = dir; host = host; keyspace = keyspace }

module _ {S : Type 0} (lib : Library S) where
  -- `New` of adaptor.go, which takes all of its configuration.
  unfoldable pub new_session : Config → Exec S ℕ
  new_session config = lib.wrap_session (record {
    hosts = config.hosts;
    consistency = config.consistency;
    keyspace = config.keyspace;
    timeout = config.timeout_cluster;
    retry_policy = record {
      num_retries = config.num_retries;
      min = config.min_retry_delay;
      max = config.max_retry_delay;
    };
  })

  unfoldable pub create_session : Cluster → Exec S ℕ
  create_session cluster = lib.wrap_session cluster

  unfoldable pub get_connection : ScyllaDbConnection → Exec S ℕ
  unfolding create_cluster create_session
  get_connection conn = create_session (create_cluster conn)

  unfoldable pub create_keyspace : ℕ → String → Exec S (Unit {0})
  unfolding create_keyspace_statement
  create_keyspace session keyspace = lib.exec_stmt session (create_keyspace_statement keyspace)

  unfoldable pub create_key_space : ℕ → String → List String → Exec S (Unit {0})
  unfolding get_connection create_keyspace
  create_key_space consistency keyspace hosts = do
    session ←
        get_connection (record { consistency = consistency; keyspace = "system"; hosts = hosts })
    create_keyspace session keyspace

  abbrev pub wrapped : {A : Type 0} → String → Outcome A → Outcome A
  wrapped text (ok a) = ok a
  wrapped text (err e) = err (lib.errorf text e)
  wrapped text panic = panic

  abbrev pub wrapping : {A : Type 0} → String → Exec S A → Exec S A
  wrapping text m s = let (o, s') = m s in (wrapped text o, s')

  -- That nothing is left to do is no error.
  abbrev pub applied : Outcome (Unit {0}) → Outcome (Unit {0})
  applied (ok u) = ok u
  applied (err e) = if lib.is_no_change e then ok tt else err e
  applied panic = panic

  abbrev pub apply_all : ℕ → Exec S (Unit {0})
  apply_all instance_id s = let (o, s') = lib.up instance_id s in (applied o, s')

  abbrev pub closed : Option Error → Outcome (Unit {0})
  closed none = ok tt
  closed (some e) = err e

  -- The error of the source counts, that of the database does not.
  abbrev pub close_source : ℕ → Exec S (Unit {0})
  close_source instance_id s = let ((e, _), s') = lib.close instance_id s in (closed e, s')

  unfoldable pub run : Manager → Exec S (Unit {0})
  unfolding migration_db_url
  run m = do
    source ← wrapping "create migrations source" (lib.source m.dir "migrations")
    instance_id ←
        wrapping "create migration instance"
          (lib.instance_with_source "iofs" source (migration_db_url m.host m.keyspace))
    _ ← wrapping "apply migrations" (apply_all instance_id)
    wrapping "close migration instance" (close_source instance_id)

  unfoldable pub run_each : String → String → List String → Exec S (Unit {0})
  unfolding run
  run_each dir keyspace [] = return tt
  run_each dir keyspace (host ∷ hosts) = do
    _ ← run (new_manager dir host keyspace)
    run_each dir keyspace hosts

  unfoldable pub run_migrations : ScyllaDbConnection → String → Exec S (Unit {0})
  unfolding run_each
  run_migrations conn dir = run_each dir conn.keyspace conn.hosts

  -- `New` of scyllarepo: the adapter is its session.
  unfoldable pub new_storage_adapter : Config → Exec S ℕ
  unfolding create_key_space run_migrations get_connection
  new_storage_adapter config = do
    host ← or_panic (first config.hosts)
    let conn = new_scylla_db_connection config.consistency config.keyspace (host ∷ [])
    _ ← fail_on_error (create_key_space config.consistency config.keyspace config.hosts)
    _ ← fail_on_error (run_migrations conn "./manager/repository/scyllarepo/")
    fail_on_error (get_connection conn)
