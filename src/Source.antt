-- ===== src/Source.antt =====
-- The sources of the manager: manager/entity/source.go, the requests and responses of
-- manager/managerparam, and manager/service/sourceservice. A `*entity.Source` is a position in a
-- heap, since the service writes through the pointer that the repository returns. The generator of
-- write keys, a ULID of the third-party package, is a parameter. `MockRepo` is the repository in
-- memory, `Routes` what a client reaches over HTTP.
pub mod MockRepo
pub mod Routes
pub mod WriteKey
use ormus.Prelude.{
  ℕ, zero, suc, String, Bool, Option, none, some, List, [], ◌∷◌, ◌++◌, Exec, Outcome, ok, err,
  panic, ◌>>=◌, ◌>>◌, return, fail, or_panic, length, get_elem?,
}

pub record SourceMetadata : Type 0 where
  pub id : String
  pub name : String
  pub slug : String
  pub category : String

-- A write key and a status are texts; a time is a number, 0 for the zero time.
pub record Source : Type 0 where
  pub id : String
  pub write_key : String
  pub name : String
  pub description : String
  pub project_id : String
  pub owner_id : String
  pub status : String
  pub metadata : SourceMetadata
  pub create_at : ℕ
  pub update_at : ℕ
  pub delete_at : Option ℕ

abbrev pub zero_source : Source
zero_source = record {
  id = "";
  write_key = "";
  name = "";
  description = "";
  project_id = "";
  owner_id = "";
  status = "";
  metadata = record { id = ""; name = ""; slug = ""; category = "" };
  create_at = 0;
  update_at = 0;
  delete_at = none;
}

pub record AddSourceRequest : Type 0 where
  pub name : String
  pub description : String
  pub project_id : String

pub record UpdateSourceRequest : Type 0 where
  pub name : String
  pub description : String
  pub project_id : String
  pub status : String

-- `UpdateSourceResponse` has the same fields.
pub record AddSourceResponse : Type 0 where
  pub id : String
  pub write_key : String
  pub name : String
  pub description : String
  pub project_id : String
  pub owner_id : String
  pub status : String
  pub create_at : ℕ
  pub update_at : ℕ
  pub delete_at : Option ℕ

abbrev pub UpdateSourceResponse : Type 0
UpdateSourceResponse = AddSourceResponse

-- The heap of sources and the state of the repository; a reference is a position in the heap.
pub record Store (S : Type 0) : Type 0 where
  pub heap : List Source
  pub repo : S

abbrev pub SourceRef : Type 0
SourceRef = ℕ

abbrev pub write_at : SourceRef → (Source → Source) → List Source → List Source
write_at r f [] = []
write_at zero f (x ∷ xs) = f x ∷ xs
write_at (suc r) f (x ∷ xs) = x ∷ write_at r f xs

pub record SourceRepo (S : Type 0) : Type 0 where
  pub insert_source : SourceRef → Exec (Store S) AddSourceResponse
  pub update_source : String → SourceRef → Exec (Store S) UpdateSourceResponse
  pub delete_source : String → String → Exec (Store S) (Unit {0})
  pub get_user_source_by_id : String → String → Exec (Store S) SourceRef
  pub is_source_already_created_by_name : String → Exec (Store S) Bool

module _ {S : Type 0} where
  -- `&entity.Source{…}`
  unfoldable pub allocate : Source → Exec (Store S) SourceRef
  allocate x s = (ok (length s.heap), record s { heap = s.heap ++ x ∷ [] })

  unfoldable pub modify : SourceRef → (Source → Source) → Exec (Store S) (Unit {0})
  modify r f s = (ok tt, record s { heap = write_at r f s.heap })

  unfoldable pub dereference : SourceRef → Exec (Store S) Source
  dereference r s = or_panic (get_elem? s.heap r) s

  module _ (repo : SourceRepo S) where
    unfoldable pub create_source :
        Outcome String → AddSourceRequest → String → Exec (Store S) AddSourceResponse
    unfolding allocate
    create_source (ok w) req owner_id = do
      source ← allocate (record zero_source {
        write_key = w;
        name = req.name;
        description = req.description;
        owner_id = owner_id;
        project_id = req.project_id;
      })
      repo.insert_source source
    create_source (err x) req owner_id = fail x
    create_source panic req owner_id = λ s. (panic, s)

    abbrev pub requested : UpdateSourceRequest → Source → Source
    requested req source = record source {
      name = req.name;
      description = req.description;
      project_id = req.project_id;
      status = req.status;
    }

    unfoldable pub update_source :
        String → String → UpdateSourceRequest → Exec (Store S) UpdateSourceResponse
    unfolding modify
    update_source owner_id source_id req = do
      source ← repo.get_user_source_by_id owner_id source_id
      modify source (requested req)
      repo.update_source source_id source

    unfoldable pub delete_source : String → String → Exec (Store S) (Unit {0})
    delete_source id user_id = repo.delete_source id user_id
