-- ===== src/Tests/Database.antt =====
-- A database that never fails, for one host and one keyspace.
use ormus.Prelude.{
  ℕ, suc, ◌≤◌, ◌≡◌, ◌≢◌, refl, String, none, some, Bool, true, false, ◌||◌, List, [], ◌∷◌, Error,
  ok, err, plain, if◌then◌else◌, str_eq, arith, eq_refl, String-cases, inl, inr, sym,
}
use ormus.Database.{Config, Library, new_storage_adapter, first}
use ormus.Database.Effects.{View, Later-refl}
use ormus.Database.Ready.{IsDatabase, keyspace_cql, cassandra_url, new_storage_adapter-Ready}

-- The open sessions, the statements and the URLs of the migrations.
record State : Type 0 where
  opened : ℕ
  statements : List String
  urls : List String

abbrev contains : String → List String → Bool
contains x [] = false
contains x (y ∷ ys) = str_eq x y || contains x ys

abbrev url : String
url = "cassandra://node1/ormus"

abbrev lib : Library State
lib = record {
  wrap_session = λ c s. (ok s.opened, record s { opened = suc s.opened });
  exec_stmt = λ h text s. (ok tt, record s { statements = text ∷ s.statements });
  source = λ dir sub s. (ok 0, s);
  instance_with_source = λ d n u s. ((if str_eq u url then ok 0 else err (plain "no host")), s);
  up = λ i s. (ok tt, record s { urls = url ∷ s.urls });
  close = λ i s. ((none, none), s);
  is_no_change = λ e. false;
  errorf = λ text e. plain text;
}

abbrev view : View State
view = record {
  sessions = λ s. s.opened;
  has = λ s k. contains (keyspace_cql k) s.statements;
  migrated = λ s u. contains u s.urls;
}

more : (x y : String) (ys : List String) → contains x ys ≡ true → contains x (y ∷ ys) ≡ true
more x y ys h = rw h (ground arith)

lib-IsDatabase : IsDatabase lib view
lib-IsDatabase = record {
  url_of = λ i. url;
  session_counts = λ c s. refl;
  session_later = λ c s. record { keyspaces = λ k h. h; migrations = λ u h. h };
  stmt_still = λ h k' s. (
    refl,
    record {
      keyspaces = λ k h'. more _ (keyspace_cql k') s.statements h';
      migrations = λ u h'. h';
    },
  );
  source_still = λ dir sub s. (refl, Later-refl view s);
  instance_still = λ d n u s. (refl, Later-refl view s);
  up_still =
      λ i s. (refl, record { keyspaces = λ k h. h; migrations = λ u h. more u url s.urls h });
  close_still = λ i s. (refl, Later-refl view s);
  stmt_creates = λ h k s e. rw (eq_refl (keyspace_cql k)) refl;
  instance_url = λ d n u s i e. elim (String-cases u url) [
    | inl (p, q) ↦ sym p
    | inr (p, q) ↦ let no = rw q at e in cc (no)
  ];
  up_applies = λ i s e. rw (eq_refl url) refl;
}

abbrev config : Config
config = record {
  hosts = "node1" ∷ "node2" ∷ [];
  consistency = 1;
  keyspace = "ormus";
  timeout_cluster = 1;
  num_retries = 2;
  min_retry_delay = 3;
  max_retry_delay = 4;
}

abbrev empty : State
empty = record { opened = 0; statements = []; urls = [] }

new_storage_adapter-Ready_example :
    let r = new_storage_adapter lib config empty in
    ((e : Error) → r.0 ≢ err e)
    × (r.1.opened ≤ 2)
    × ((h : ℕ)
        → r.0 ≡ ok h
        → (r.1.opened ≡ 2)
          × ((host : String) × (first config.hosts ≡ some host)
              × (view.has r.1 "ormus" ≡ true)
              × (view.migrated r.1 (cassandra_url host "ormus") ≡ true)))
new_storage_adapter-Ready_example = new_storage_adapter-Ready lib view lib-IsDatabase config empty
