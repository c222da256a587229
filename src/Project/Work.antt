-- ===== src/Project/Work.antt =====
-- What the worker of default projects does over the repository in memory.
use mathlib.Core.List.{append-nil, append_assoc}
use ormus.Prelude.{ℕ, String, ◌≡◌, ◌⊎◌, refl, true, false, List, [], ◌∷◌, ◌++◌, inl, inr}
use ormus.Project.{
  Project, Repository, MockProject, mock_create, new_project, create, Message, AckResult, acked,
  refused, blocks, runs, after_ack, handle_message, run,
}

abbrev pub mock_repository : ℕ → Repository MockProject
mock_repository now = record { create = mock_create now }

abbrev pub default_project : ℕ → String → Project
default_project now user_id = new_project now "Default Project" user_id

module _ {B : Type 0} (now : ℕ) where
  -- The broker after each message was acknowledged in turn.
  abbrev pub acked_all : List (Message B) → B → B
  acked_all [] b = b
  acked_all (msg ∷ msgs) b = acked_all msgs (msg.ack b).1

  -- Each acknowledgement, in turn, is answered.
  abbrev pub Answers : List (Message B) → B → Type 0
  Answers [] b = Unit
  Answers (msg ∷ msgs) b =
      (((msg.ack b).0 ≡ acked) ⊎ ((msg.ack b).0 ≡ refused)) × Answers msgs (msg.ack b).1

  after_ack-answered :
      (m : MockProject) (r : AckResult × B)
      → (r.0 ≡ acked) ⊎ (r.0 ≡ refused)
      → after_ack (mock_repository now) m r ≡ record { loop = runs; store = m; broker = r.1 }
  after_ack-answered m (acked, b) h = refl
  after_ack-answered m (refused, b) h = refl
  after_ack-answered m (blocks, b) (inl h) = cc
  after_ack-answered m (blocks, b) (inr h) = cc

  abbrev pub default_projects : List (Message B) → List Project
  default_projects [] = []
  default_projects (msg ∷ msgs) = default_project now msg.body ∷ default_projects msgs

  handle-answered :
      (msg : Message B) (m : MockProject) (b : B)
      → m.has_err ≡ false
      → ((msg.ack b).0 ≡ acked) ⊎ ((msg.ack b).0 ≡ refused)
      → handle_message (mock_repository now) msg m b ≡ record {
        loop = runs;
        store = record m { projects = m.projects ++ default_project now msg.body ∷ [] };
        broker = (msg.ack b).1;
      }
  unfolding handle_message create mock_create
  handle-answered msg m b works answered = rw works (after_ack-answered _ (msg.ack b) answered)

  handle-failing :
      (msg : Message B) (m : MockProject) (b : B)
      → m.has_err ≡ true
      → handle_message (mock_repository now) msg m b ≡ record { loop = runs; store = m; broker = b }
  unfolding handle_message create mock_create
  handle-failing msg m b fails = rw fails refl

  -- Where the repository works and every acknowledgement is answered, each message gives its user a
  -- default project, in the order of the messages, and is acknowledged once, a refusal included;
  -- where the repository fails, nothing is stored and nothing is acknowledged, and the worker goes
  -- on.
  pub run_lem :
      (msgs : List (Message B)) (m : MockProject) (b : B)
      → let t = run (mock_repository now) msgs m b in
        (m.has_err ≡ false
          → Answers msgs b
          → t ≡ record {
            loop = runs;
            store = record m { projects = m.projects ++ default_projects msgs };
            broker = acked_all msgs b;
          })
        × (m.has_err ≡ true → t ≡ record { loop = runs; store = m; broker = b })
  unfolding run handle_message create mock_create
  run_lem [] m b = (λ works answers. rw (append-nil m.projects) refl, λ fails. refl)
  run_lem (msg ∷ msgs) m b = (
    λ works answers.
        let one = handle-answered msg m b works answers.0 in
        let rest =
          (run_lem msgs (record m { projects = m.projects ++ default_project now msg.body ∷ [] })
              (msg.ack b).1).0
            works answers.1 in
        rw
          (
            one,
            rest,
            append_assoc m.projects (default_project now msg.body ∷ []) (default_projects msgs),
          )
          refl,
    λ fails. rw (handle-failing msg m b fails) ((run_lem msgs m b).1 fails),
  )
