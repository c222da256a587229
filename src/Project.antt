-- ===== src/Project.antt =====
-- The projects of the manager: manager/service/projectservice/create.go, the repository in memory
-- of manager/mockRepo/projectstub, and manager/workers/worker.go, the worker that creates a default
-- project for each user that the service of users announces on the internal broker.
pub mod Work
use ormus.Prelude.{
  ℕ, String, Option, none, some, Bool, true, false, List, [], ◌∷◌, ◌++◌, Exec, Outcome, ok, err,
  panic, Error, plain, ◌>>=◌, return, fail, concat, str_eq, if◌then◌else◌,
}
use ormus.RichError.{new, with_message, with_wrapped_error, err_some_thing_went_wrong}

pub record Project : Type 0 where
  pub id : String
  pub created_at : ℕ
  pub updated_at : ℕ
  pub deleted_at : Option ℕ
  pub name : String
  pub description : String
  pub user_id : String

pub record Repository (S : Type 0) : Type 0 where
  pub create : String → String → Exec S Project

abbrev pub wrapped : {A : Type 0} → Outcome A → Outcome (Unit {0})
wrapped (ok a) = ok tt
wrapped (err e) = err (
    with_message err_some_thing_went_wrong
      (with_wrapped_error e (new "projectService.CreateDefaultProject")))
wrapped panic = panic

-- `Service.Create`
unfoldable pub create : {S : Type 0} → Repository S → String → Exec S (Unit {0})
create repo msg s = let (o, t) = repo.create "Default Project" msg s in (wrapped o, t)

abbrev pub repo_err : String
repo_err = "repository error"

pub record MockProject : Type 0 where
  pub projects : List Project
  pub has_err : Bool

unfoldable pub new_mock_project : Bool → MockProject
new_mock_project has_err = record { projects = []; has_err = has_err }

abbrev pub new_project : ℕ → String → String → Project
new_project now name id = record {
  id = "new-id";
  created_at = now;
  updated_at = now;
  deleted_at = none;
  name = name;
  description = "";
  user_id = concat "a user with this ID: " id;
}

unfoldable pub mock_create : ℕ → String → String → Exec MockProject Project
mock_create now name id m = if m.has_err then fail (plain repo_err) m else (
  ok (new_project now name id),
  record m { projects = m.projects ++ new_project now name id ∷ [] },
)

unfoldable pub is_created : String → List Project → Bool
is_created id [] = false
is_created id (p ∷ ps) = let rest = is_created id ps in if str_eq p.id id then true else rest

-- A message of the output channel: its body, and what `Ack` does to the broker. `Ack` that blocks
-- for good ends the loop.
pub data AckResult : Type 0 where
  acked refused blocks : AckResult

pub record Message (B : Type 0) : Type 0 where
  pub body : String
  pub ack : B → AckResult × B

pub data Loop : Type 0 where
  runs stuck crashed : Loop

-- The worker, what it stores to, and the broker that it acknowledges to.
pub record State (S B : Type 0) : Type 0 where
  pub loop : Loop
  pub store : S
  pub broker : B

module _ {S B : Type 0} (repo : Repository S) where
  abbrev pub after_ack : S → AckResult × B → State S B
  after_ack s (acked, b) = record { loop = runs; store = s; broker = b }
  after_ack s (refused, b) = record { loop = runs; store = s; broker = b }
  after_ack s (blocks, b) = record { loop = stuck; store = s; broker = b }

  abbrev pub after_create : Message B → Outcome (Unit {0}) × S → B → State S B
  after_create msg (ok _, s) b = after_ack s (msg.ack b)
  after_create msg (err e, s) b = record { loop = runs; store = s; broker = b }
  after_create msg (panic, s) b = record { loop = crashed; store = s; broker = b }

  -- The case of the `select` that receives a message.
  unfoldable pub handle_message : Message B → S → B → State S B
  unfolding create
  handle_message msg s b = after_create msg (create repo msg.body s) b

  abbrev pub go_on : Loop → (S → B → State S B) → State S B → State S B
  go_on runs next t = next t.store t.broker
  go_on stuck next t = t
  go_on crashed next t = t

  -- `Run` on the messages that arrive before `done`.
  unfoldable pub run : List (Message B) → S → B → State S B
  unfolding handle_message
  run [] s b = record { loop = runs; store = s; broker = b }
  run (msg ∷ msgs) s b = let t = handle_message msg s b in go_on t.loop (run msgs) t
