-- ===== src/Database/Ready.antt =====
-- What the manager's way to ScyllaDB has done where it comes to its end.
use ormus.Prelude.{
  ℕ, ◌+◌, ◌≤◌, ◌≡◌, ◌≢◌, refl, ap, ◌∙◌, sym, String, some, true, List, [], ◌∷◌, Exec, Error,
  Outcome, ok, err, panic, return, or_panic, concat,
}
use ormus.Prelude.TakeAt.{All}
use ormus.Pipeline.Dialled.{fail_on_error, failed_on}
use ormus.Pipeline.Consumer.Setup.Closed.{opened, failed_on-≢-err}
use ormus.Database.{
  create_session, Config, Cluster, Library, create_keyspace_statement, migration_db_url, Manager,
  get_connection, create_keyspace, create_key_space, wrapped, wrapping, applied, apply_all,
  close_source, run, run_each, run_migrations, first, new_storage_adapter,
}
use ormus.Database.Effects.{
  View, Later, Later-refl, Does, and_then-Does, mapped-Does, or_panic-Does, Still, Still-Does,
  weaken, opened-most, opened-ok, failed_on-ok, and_then-≢-err, or_panic-≢-err,
}

-- The statement of CQL that makes a keyspace where there is none, with one replica.
abbrev pub keyspace_cql : String → String
keyspace_cql name =
    concat (concat "CREATE KEYSPACE IF NOT EXISTS " name)
      " WITH replication = {'class': 'SimpleStrategy', 'replication_factor': 1}"

-- The URL of a keyspace at a host, as the driver of the migrations documents it.
abbrev pub cassandra_url : String → String → String
cassandra_url host keyspace = concat (concat (concat "cassandra://" host) "/") keyspace

module _ {S : Type 0} (lib : Library S) where
  -- What the libraries document: only the start of a session that succeeds opens one, no call of these
  -- undoes what is there, and what the statement of a keyspace, an instance and its migrations are
  -- good for. Of a statement that is another text nothing is said.
  pub record IsDatabase (v : View S) : Type 0 where
    pub url_of : ℕ → String
    pub session_counts :
        (c : Cluster) (s : S)
        → v.sessions (lib.wrap_session c s).1 ≡ opened (lib.wrap_session c s).0 (v.sessions s)
    pub session_later : (c : Cluster) (s : S) → Later v s (lib.wrap_session c s).1
    pub stmt_still : (h : ℕ) (k : String) → Still v (lib.exec_stmt h (keyspace_cql k))
    pub source_still : (dir sub : String) → Still v (lib.source dir sub)
    pub instance_still :
        (d : String) (n : ℕ) (u : String) → Still v (lib.instance_with_source d n u)
    pub up_still : (i : ℕ) → Still v (lib.up i)
    pub close_still :
        (i : ℕ) (s : S)
        → (v.sessions (lib.close i s).1 ≡ v.sessions s) × Later v s (lib.close i s).1
    pub stmt_creates :
        (h : ℕ) (k : String) (s : S)
        → (lib.exec_stmt h (keyspace_cql k) s).0 ≡ ok tt
        → v.has (lib.exec_stmt h (keyspace_cql k) s).1 k ≡ true
    pub instance_url :
        (d : String) (n : ℕ) (u : String) (s : S) (i : ℕ)
        → (lib.instance_with_source d n u s).0 ≡ ok i
        → url_of i ≡ u
    pub up_applies :
        (i : ℕ) (s : S)
        → applied lib (lib.up i s).0 ≡ ok tt
        → v.migrated (lib.up i s).1 (url_of i) ≡ true

  wrapped-ok :
      {A : Type 0} (text : String) (o : Outcome A) (a : A) → wrapped lib text o ≡ ok a → o ≡ ok a
  wrapped-ok text (ok b) a h = h
  wrapped-ok text (err e) a h = cc
  wrapped-ok text panic a h = cc

  module _ (v : View S) (d : IsDatabase v) where
    create_session-Does : (c : Cluster) → Does v (lib.wrap_session c) 1 (λ h s. Unit)
    create_session-Does c = record {
      later = d.session_later c;
      most = λ s. rw (d.session_counts c s) (opened-most (lib.wrap_session c s).0 (v.sessions s));
      ends = λ s h e. (d.session_counts c s ∙ opened-ok _ h _ e, tt);
    }

    fail_on_error-Does :
        {A : Type 0} (m : Exec S A) (n : ℕ) (P : A → S → Type 0)
        → Does v m n P
        → Does v (fail_on_error m) n P
    fail_on_error-Does m n P = mapped-Does v failed_on m n P failed_on-ok

    wrapping-Does :
        {A : Type 0} (text : String) (m : Exec S A) (n : ℕ) (P : A → S → Type 0)
        → Does v m n P
        → Does v (wrapping lib text m) n P
    wrapping-Does text m n P = mapped-Does v (wrapped lib text) m n P (wrapped-ok text)

    create_key_space-Does :
        (consistency : ℕ) (keyspace : String) (hosts : List String)
        → Does v
            (create_key_space lib consistency keyspace hosts)
            1
            (λ u s. v.has s keyspace ≡ true)
    unfolding create_key_space create_keyspace create_keyspace_statement get_connection
        create_session
    create_key_space-Does consistency keyspace hosts =
        and_then-Does v _ _ 1 0 _ _ (create_session-Does _) (λ h s t l u. tt)
          λ h.
            Still-Does v _ _ (d.stmt_still h keyspace) (λ s u e made. d.stmt_creates h keyspace s e)

    run-Does :
        (m : Manager)
        → Does v (run lib m) 0 (λ u s. v.migrated s (migration_db_url m.host m.keyspace) ≡ true)
    unfolding run
    run-Does m =
        let url = migration_db_url m.host m.keyspace in
        let Q : Unit {0} → S → Type 0 = λ u s. v.migrated s url ≡ true in
        and_then-Does v _ _ 0 0 (λ n s. Unit) Q
          (wrapping-Does _ _ 0 _
            (Still-Does v _ _ (d.source_still m.dir "migrations") (λ s n e. tt)))
          (λ n s t l p. p)
          λ n.
            and_then-Does v _ _ 0 0 (λ i s. d.url_of i ≡ url) (λ u s. Unit → Q u s)
              (wrapping-Does _ _ 0 _
                (Still-Does v _ _ (d.instance_still "iofs" n url) (d.instance_url "iofs" n url)))
              (λ i s t l p. p)
              λ i.
                and_then-Does v _ _ 0 0 (λ u s. v.migrated s (d.url_of i) ≡ true)
                  (λ u s. d.url_of i ≡ url → Unit → Q u s)
                  (wrapping-Does _ _ 0 _
                    (Still-Does v (apply_all lib i) _ (d.up_still i) (λ s u e. d.up_applies i s e)))
                  (λ u s t l p. l.migrations (d.url_of i) p)
                  λ u. wrapping-Does _ _ 0 _ (
                    Still-Does v (close_source lib i) _ (d.close_still i)
                      (λ s u' e p same one. ap (v.migrated (lib.close i s).1) (sym same) ∙ p))

    run_each-Does :
        (dir keyspace : String) (hosts : List String)
        → Does v
            (run_each lib dir keyspace hosts)
            0
            (λ u s. All (λ host. v.migrated s (migration_db_url host keyspace) ≡ true) hosts)
    unfolding run_each
    run_each-Does dir keyspace [] =
        Still-Does v (return tt) _ (λ s. (refl, Later-refl v s)) (λ s a h. tt)
    run_each-Does dir keyspace (host ∷ hosts) =
        and_then-Does v _ _ 0 0 _ _ (run-Does _) (λ u s t l p. l.migrations _ p)
          λ u. weaken v _ 0 _ _ (λ b s all one. (one, all)) (run_each-Does dir keyspace hosts)

    new_storage_adapter-Does :
        (config : Config)
        → Does v (new_storage_adapter lib config) 2 (λ h s.
          (host : String) × (first config.hosts ≡ some host)
          × (v.has s config.keyspace ≡ true)
          × (v.migrated s (migration_db_url host config.keyspace) ≡ true))
    unfolding new_storage_adapter run_migrations get_connection create_session
    new_storage_adapter-Does config =
        let Made : S → Type 0 = λ s. v.has s config.keyspace ≡ true in
        let Applied : String → S → Type 0 =
          λ host s. v.migrated s (migration_db_url host config.keyspace) ≡ true in
        let Q : ℕ → S → Type 0 =
          λ h s. (host : String) × (first config.hosts ≡ some host) × Made s × Applied host s in
        and_then-Does v _ _ 0 2 (λ host s. first config.hosts ≡ some host) Q
          (or_panic-Does v (first config.hosts)) (λ host s t l p. p)
          λ host.
            and_then-Does v _ _ 1 1 (λ u s. Made s) (λ h s. first config.hosts ≡ some host → Q h s)
              (fail_on_error-Does _ 1 _
                (create_key_space-Does config.consistency config.keyspace config.hosts))
              (λ u s t l p. l.keyspaces config.keyspace p)
              λ u.
                and_then-Does v _ _ 0 1 (λ u s. All (λ host. Applied host s) (host ∷ []))
                  (λ h s. Made s → first config.hosts ≡ some host → Q h s)
                  (fail_on_error-Does _ 0 _ (run_each-Does _ config.keyspace (host ∷ [])))
                  (λ u s t l p. (l.migrations _ p.0, tt))
                  λ u.
                    weaken v _ 1 _ _
                      (λ h s _ applied_one made is_first. (host, is_first, made, applied_one.0))
                      (fail_on_error-Does _ 1 _ (create_session-Does _))

  new_storage_adapter-≢-err :
      (config : Config) (s : S) (e : Error) → (new_storage_adapter lib config s).0 ≢ err e
  unfolding new_storage_adapter run_migrations
  new_storage_adapter-≢-err config =
      let made = create_key_space lib config.consistency config.keyspace config.hosts in
      let applied_at : String → Exec S (Unit {0}) =
        λ host. run_each lib "./manager/repository/scyllarepo/" config.keyspace (host ∷ []) in
      let connected : String → Exec S ℕ = λ host. get_connection lib (record {
        consistency = config.consistency;
        keyspace = config.keyspace;
        hosts = host ∷ [];
      }) in
      and_then-≢-err (or_panic (first config.hosts)) _ (or_panic-≢-err (first config.hosts)) λ host.
        and_then-≢-err (fail_on_error made) _ (λ s. failed_on-≢-err (made s).0)
          λ u.
            and_then-≢-err (fail_on_error (applied_at host)) (λ u. fail_on_error (connected host))
              (λ s. failed_on-≢-err (applied_at host s).0)
              λ u s. failed_on-≢-err (connected host s).0

  -- Over libraries that keep their word, the constructor never returns an error: it ends the program
  -- instead. It leaves at most two sessions open that were not before; and where it returns an
  -- adapter, two are open, though the adapter has one, there is a first host, the keyspace of the
  -- configuration exists, and the migrations are applied to this keyspace at this host.
  pub new_storage_adapter-Ready :
      (v : View S) (d : IsDatabase v) (config : Config) (s : S)
      → let r = new_storage_adapter lib config s in
        ((e : Error) → r.0 ≢ err e)
        × (v.sessions r.1 ≤ 2 + v.sessions s)
        × ((h : ℕ)
            → r.0 ≡ ok h
            → (v.sessions r.1 ≡ 2 + v.sessions s)
              × ((host : String) × (first config.hosts ≡ some host)
                  × (v.has r.1 config.keyspace ≡ true)
                  × (v.migrated r.1 (cassandra_url host config.keyspace) ≡ true)))
  unfolding migration_db_url
  new_storage_adapter-Ready v d config s =
      let does = new_storage_adapter-Does v d config in
      (new_storage_adapter-≢-err config s, does.most s, does.ends s)

  -- The timeout and the retries of the configuration have no effect on the constructor.
  new_storage_adapter-eq :
      (config : Config) (timeout retries least most : ℕ)
      → new_storage_adapter lib config
        ≡ new_storage_adapter lib (record config {
          timeout_cluster = timeout;
          num_retries = retries;
          min_retry_delay = least;
          max_retry_delay = most;
        })
  unfolding new_storage_adapter
  new_storage_adapter-eq config timeout retries least most = refl
