-- ===== src/Tests/Scylla.antt =====
-- Users over a database that holds one kind of row, in a list.
use ormus.Prelude.{
  ℕ, ◌+◌, ◌==◌, String, ◌≡◌, ◌≢◌, refl, Option, none, some, Bool, true, [], ◌∷◌, Outcome, ok, err,
  plain, sym, ok-injective, ◌⊎◌, str_eq, if◌then◌else◌, Table, eq_iff, arith,
}
use ormus.User.{User, zero_user}
use ormus.User.Scylla.{Session, register, get_user_by_email, does_user_exists_by_email}
use ormus.User.Scylla.Rows.{Reads, is_there, KeepsRows, register-get_user_by_email}

abbrev new_user : User
new_user = record zero_user { email = "a@b.c"; password = "hash"; is_active = true }

-- The number of registrations.
abbrev row : ℕ → String → Option (String × String)
row n email = if n == 0 then none else if str_eq "a@b.c" email then some ("u1", "hash") else none

abbrev read_row : Option (String × String) → String → Outcome User
read_row none email = err (plain "not found")
read_row (some (id, password)) email =
    ok (record zero_user { id = id; email = email; password = password; is_active = true })

abbrev bound : Table String → String
bound [] = ""
bound ((name, value) ∷ names) = value

abbrev db : Session ℕ
db = record {
  exec_stmt = λ text n. (ok tt, n + 1);
  scan = λ text names n. (is_there (row n (bound names)), n);
  close_iter = λ text names n. (ok tt, n);
  get = λ text names n. (read_row (row n (bound names)) (bound names), n);
  new_uuid = λ n. ("u1", n);
  now = λ n. ("2024-01-01T00:00:00Z", n);
  format = λ t. "";
}

abbrev is_plain : String → String → Bool
is_plain column text =
    if str_eq column "id"
    then str_eq text "u1"
    else if str_eq column "email"
    then str_eq text "a@b.c"
    else if str_eq column "password"
    then str_eq text "hash"
    else str_eq text "2024-01-01T00:00:00Z"

row-suc :
    (email : String) (n : ℕ)
    → row (n + 1) email ≡ (if str_eq "a@b.c" email then some ("u1", "hash") else row n email)
row-suc email n = ground arith

read_row-Reads : (email : String) (r : Option (String × String)) → Reads email r (read_row r email)
read_row-Reads email none = λ u h. cc
read_row-Reads email (some (id, password)) = λ u h.
    let same : record zero_user { id = id; email = email; password = password; is_active = true }
        ≡ u =
      ok-injective h in
    rw (sym same) (refl, refl, refl)

db-KeepsRows : KeepsRows db row is_plain
db-KeepsRows = record {
  written =
      λ id created updated email password n id_plain time_plain other_plain email_plain
          password_plain done other.
        let same_id : id ≡ "u1" = ground (arith, id_plain, eq_iff id "u1") in
        let same_email : email ≡ "a@b.c" = ground (arith, email_plain, eq_iff email "a@b.c") in
        let same_password : password ≡ "hash" =
          ground (arith, password_plain, eq_iff password "hash") in
        simp (same_id, same_email, same_password) (row-suc other n);
  read = λ email n. read_row-Reads email (row n email);
  scanned = λ email n h. h;
  uuid_same = λ email n. refl;
  now_same = λ email n. refl;
  uuid_plain = λ n. refl;
  now_plain = λ n. refl;
}

register-get_user_by_email_example :
    ((w : User)
      → (get_user_by_email db "a@b.c" 1).0 ≡ ok w
      → (w.id ≡ "u1") × (w.password ≡ "hash") × (w.email ≡ "a@b.c"))
    × ((email : String)
        → (does_user_exists_by_email db email 1).0 ≡ ok true
        → ("a@b.c" ≡ email) ⊎ (is_there (row 0 email) ≡ true))
    × ((email : String) → email ≢ "a@b.c" → row 1 email ≡ row 0 email)
unfolding register
register-get_user_by_email_example =
    register-get_user_by_email db row is_plain db-KeepsRows new_user (record new_user { id = "u1" })
      0 1 refl refl refl refl refl
