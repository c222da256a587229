-- ===== src/User/Scylla/Rows.antt =====
-- What a registration does to the rows of the users.
use ormus.Prelude.{
  String, ◌≡◌, ◌≢◌, refl, sym, ap, ◌∙◌, Option, none, some, Bool, true, false, [], ◌∷◌, Outcome, ok,
  str_eq, eq_refl, str_eq-of_ne, if◌then◌else◌, and_then-eq-ok, ok-injective, return, concat, List,
  ◌⊎◌, inl, inr, String-cases,
}
use mathlib.Core.Path.{subst}
use ormus.User.{User}
use ormus.User.Scylla.{
  Session, register_statement, register, exists_query, does_user_exists_by_email, get_user_by_email,
  register_statement,
}

abbrev pub is_there : {A : Type 0} → Option A → Bool
is_there none = false
is_there (some a) = true

-- A read that succeeds gives the row's ID and password, and does not succeed where there is no row.
abbrev pub Reads : String → Option (String × String) → Outcome User → Type 0
Reads email (some (id, password)) o =
    (u : User) → o ≡ ok u → (u.id ≡ id) × (u.password ≡ password) × (u.email ≡ email)
Reads email none o = (u : User) → o ≢ ok u

abbrev joined : String → List String → String
joined x [] = x
joined x (y ∷ ys) = concat x (joined y ys)

-- The statement of CQL that writes the row of an active user that is not deleted.
abbrev pub insert_cql : String → String → String → String → String → String
insert_cql id created updated email password =
    joined
      "INSERT INTO users (id, created_at, updated_at, deleted_at, email, password, is_active) VALUES ('"
      (id ∷ "', '" ∷ created ∷ "', '" ∷ updated ∷ "', " ∷ "NULL" ∷ ", '" ∷ email ∷ "', '" ∷ password
        ∷ "', " ∷ "true" ∷ ")" ∷ [])

-- What ScyllaDB documents of the three statements, by their texts. `row` is the active user of an
-- address: its ID and password. `is_plain` are the texts of a column that may stand between quotes in
-- a statement, which those of the library of UUIDs and of the clock are. An INSERT writes the row of
-- its primary key, which is the address and whether the user is active, also where there is one. A
-- query may fail; a scan that found no row, or failed, gives none.
pub record KeepsRows {S : Type 0} (db : Session S) (row : S → String → Option (String × String))
    (is_plain : String → String → Bool) : Type 0 where
  pub written :
      (id created updated email password : String) (s : S)
      → is_plain "id" id ≡ true
      → is_plain "time" created ≡ true
      → is_plain "time" updated ≡ true
      → is_plain "email" email ≡ true
      → is_plain "password" password ≡ true
      → let (o, t) = db.exec_stmt (insert_cql id created updated email password) s in
        o ≡ ok tt
        → (other : String)
        → row t other ≡ (if str_eq email other then some (id, password) else row s other)
  pub read :
      (email : String) (s : S)
      → Reads email
          (row s email)
          (db.get "SELECT * FROM users WHERE email = ? AND is_active = true"
            (("email", email) ∷ [])
            s).0
  pub scanned :
      (email : String) (s : S)
      → (db.scan "SELECT id FROM users WHERE email = ? AND is_active = true LIMIT 1"
          (("email", email) ∷ [])
          s).0
        ≡ true
      → is_there (row s email) ≡ true
  pub uuid_same : (email : String) (s : S) → row (db.new_uuid s).1 email ≡ row s email
  pub uuid_plain : (s : S) → is_plain "id" (db.new_uuid s).0 ≡ true
  pub now_plain : (s : S) → is_plain "time" (db.now s).0 ≡ true
  pub now_same : (email : String) (s : S) → row (db.now s).1 email ≡ row s email

statement-cql :
    {S : Type 0} (db : Session S) (u : User) (created updated : String)
    → u.is_active ≡ true
    → u.deleted_at ≡ none
    → register_statement db u created updated ≡ insert_cql u.id created updated u.email u.password
unfolding register_statement
statement-cql db u created updated active kept = rw (active, kept) refl

module _ {S : Type 0} (db : Session S) (row : S → String → Option (String × String))
    (is_plain : String → String → Bool) (keeps : KeepsRows db row is_plain) where
  rows_after :
      (u v : User) (s t : S)
      → u.is_active ≡ true
      → u.deleted_at ≡ none
      → is_plain "email" u.email ≡ true
      → is_plain "password" u.password ≡ true
      → register db u s ≡ (ok v, t)
      → (email : String)
      → row t email ≡ (if str_eq u.email email then some (v.id, u.password) else row s email)
  unfolding register
  rows_after u v s t active kept plain_email plain_password h email =
      let s1 = (db.new_uuid s).1 in
      let s2 = (db.now s1).1 in
      let s3 = (db.now s2).1 in
      let new : User = record u { id = (db.new_uuid s).0 } in
      let created = (db.now s1).0 in
      let updated = (db.now s2).0 in
      let call = db.exec_stmt (register_statement db new created updated) s3 in
      let (a, e, rest, same) = and_then-eq-ok call (λ _. return new) v (ap (λ r. r.0) h) in
      let old : row s3 email ≡ row s email =
        keeps.now_same email s2 ∙ keeps.now_same email s1 ∙ keeps.uuid_same email s in
      let text = statement-cql db new created updated active kept in
      let insert = db.exec_stmt (insert_cql new.id created updated u.email u.password) s3 in
      let same_call : call ≡ insert = ap (λ x. db.exec_stmt x s3) text in
      let log =
        ap (λ (r : Outcome (Unit {0}) × S). row r.1 email) same_call
        ∙ keeps.written new.id created updated u.email u.password s3 (keeps.uuid_plain s)
            (keeps.now_plain s1) (keeps.now_plain s2) plain_email plain_password
            (sym (ap (λ (r : Outcome (Unit {0}) × S). r.0) same_call) ∙ e) email in
      let state : call.1 ≡ t = ap (λ r. r.1) (sym same ∙ h) in
      let id : new.id ≡ v.id = ap (λ (w : User). w.id) (ok-injective rest) in
      ap (λ q. row q email) (sym state)
      ∙ log
      ∙ ap (λ i. if str_eq u.email email then some (i, u.password) else row s3 email) id
      ∙ ap (λ r. if str_eq u.email email then some (v.id, u.password) else r) old

  -- After a registration of an active user that is not deleted and that succeeds, with an address and
  -- a password that need no quotes: a read of the address that succeeds gives the ID that was answered
  -- and this password, whatever row was there before; an address that the scan is answered to find is
  -- this one or had a row before; and the rows of all other addresses are as they were.
  pub register-get_user_by_email :
      (u v : User) (s t : S)
      → u.is_active ≡ true
      → u.deleted_at ≡ none
      → is_plain "email" u.email ≡ true
      → is_plain "password" u.password ≡ true
      → register db u s ≡ (ok v, t)
      → ((w : User)
          → (get_user_by_email db u.email t).0 ≡ ok w
          → (w.id ≡ v.id) × (w.password ≡ u.password) × (w.email ≡ u.email))
        × ((email : String)
            → (does_user_exists_by_email db email t).0 ≡ ok true
            → (u.email ≡ email) ⊎ (is_there (row s email) ≡ true))
        × ((email : String) → email ≢ u.email → row t email ≡ row s email)
  unfolding get_user_by_email does_user_exists_by_email
  register-get_user_by_email u v s t active kept plain_email plain_password h =
      let rows = rows_after u v s t active kept plain_email plain_password h in
      let own : row t u.email ≡ some (v.id, u.password) =
        rows u.email ∙ rw (eq_refl u.email) refl in
      let other : (email : String) → u.email ≢ email → row t email ≡ row s email =
        λ email n. rows email ∙ rw (str_eq-of_ne u.email email n) refl in
      (
        subst (λ r. Reads u.email r (get_user_by_email db u.email t).0) own (keeps.read u.email t),
        λ email found.
            let names = ("email", email) ∷ [] in
            let scan = db.scan exists_query names t in
            let (a, closed, rest, same) =
              and_then-eq-ok (db.close_iter exists_query names scan.1) (λ _. return scan.0) true
                found in
            let there = keeps.scanned email t (ok-injective rest) in
            elim (String-cases u.email email) [
              | inl (p, e) ↦ inl p
              | inr (n, e) ↦ inr (sym (ap is_there (other email n)) ∙ there)
            ],
        λ email n. other email (λ k. n (sym k)),
      )
