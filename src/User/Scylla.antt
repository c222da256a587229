-- ===== src/User/Scylla.antt =====
-- manager/repository/scyllarepo/user.go: the repository of users over ScyllaDB. The library that
-- talks to the database is a parameter, over a state that holds it, with the library of UUIDs and
-- the clock; the texts of the statements are the code's.
pub mod Rows
use ormus.Prelude.{
  ℕ, String, Option, none, some, Bool, true, false, List, [], ◌∷◌, Table, Exec, Outcome, ok, err,
  panic, Error, ◌>>=◌, return, concat, if◌then◌else◌,
}
use ormus.User.{User, Repository}

-- What the code calls on a session, on a query with its bindings, and besides.
pub record Session (S : Type 0) : Type 0 where
  pub exec_stmt : String → Exec S (Unit {0})
  -- `Iter().Scan` into one text: whether there was a row
  pub scan : String → Table String → S → Bool × S
  -- `Iter().Close`
  pub close_iter : String → Table String → Exec S (Unit {0})
  pub get : String → Table String → Exec S User
  pub new_uuid : S → String × S
  -- `time.Now().Format(time.RFC3339)`
  pub now : S → String × S
  pub format : ℕ → String

abbrev pub quoted : String → String
quoted s = concat "'" (concat s "'")

abbrev pub exists_query : String
exists_query = "SELECT id FROM users WHERE email = ? AND is_active = true LIMIT 1"

abbrev pub select_query : String
select_query = "SELECT * FROM users WHERE email = ? AND is_active = true"

module _ {S : Type 0} (db : Session S) where
  abbrev pub deleted_at_value : Option ℕ → String
  deleted_at_value none = "NULL"
  deleted_at_value (some t) = quoted (db.format t)

  abbrev pub bool_text : Bool → String
  bool_text true = "true"
  bool_text false = "false"

  -- The statement of `Register`, by the user with its ID and the two times.
  unfoldable pub register_statement : User → String → String → String
  register_statement u created updated =
      concat
        "INSERT INTO users (id, created_at, updated_at, deleted_at, email, password, is_active) VALUES ('"
        (concat u.id (
          concat "', '" (
            concat created (
              concat "', '" (
                concat updated (
                  concat "', " (
                    concat (deleted_at_value u.deleted_at) (
                      concat ", '" (
                        concat u.email (
                          concat "', '" (
                            concat u.password
                              (concat "', " (concat (bool_text u.is_active) ")")))))))))))))

  unfoldable pub register : User → Exec S User
  register u s =
      let (uuid, s) = db.new_uuid s in
      let (created, s) = db.now s in
      let (updated, s) = db.now s in
      let v = record u { id = uuid } in
      (db.exec_stmt (register_statement v created updated) >>= λ _. return v) s

  -- `Iter` is called twice, so that the query is executed twice.
  unfoldable pub does_user_exists_by_email : String → Exec S Bool
  does_user_exists_by_email email s =
      let names = ("email", email) ∷ [] in
      let (found, s) = db.scan exists_query names s in
      (db.close_iter exists_query names >>= λ _. return found) s

  unfoldable pub get_user_by_email : String → Exec S User
  get_user_by_email email = db.get select_query (("email", email) ∷ [])

  -- What the service of users relies on.
  abbrev pub repository : Repository S
  repository = record {
    register = register;
    get_user_by_email = get_user_by_email;
    does_user_exists_by_email = does_user_exists_by_email;
  }
