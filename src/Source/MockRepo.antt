-- ===== src/Source/MockRepo.antt =====
-- manager/mockRepo/sourcemock: the repository of sources in memory, a slice of pointers. An index
-- into the slice that it ranges over is in range.
pub mod Ownership
use ormus.Prelude.{
  ℕ, zero, suc, String, Option, none, some, Bool, true, false, ◌&&◌, List, [], ◌∷◌, ◌++◌, Exec, ok,
  ◌>>=◌, ◌>>◌, return, fail, Error, plain, str_eq, get_elem?, length, if◌then◌else◌,
}
use ormus.RichError.{new, with_wrapped_error, with_message}
use ormus.Source.{
  Source, AddSourceResponse, UpdateSourceResponse, SourceRef, Store, SourceRepo, zero_source,
  allocate, dereference,
}

abbrev pub repo_err : String
repo_err = "repository error"

abbrev pub err_user_not_found : String
err_user_not_found = "user not found"

pub record MockRepo : Type 0 where
  pub sources : List SourceRef
  pub has_err : Bool

abbrev pub default_source : Source
default_source = record zero_source {
  id = "source_id";
  write_key = "writekey";
  name = "name name";
  description = "description";
  project_id = "project_id";
  owner_id = "owner_id";
}

unfoldable pub new_mock_repository : Bool → Store MockRepo
new_mock_repository has_err = record {
  heap = default_source ∷ [];
  repo = record { sources = 0 ∷ []; has_err = has_err };
}

abbrev pub repository_failed : String → Error
repository_failed operation = with_wrapped_error (plain repo_err) (new operation)

abbrev pub user_not_found : String → Error
user_not_found operation = with_message err_user_not_found (new operation)

abbrev pub response : Source → AddSourceResponse
response source = record {
  id = source.id;
  write_key = source.write_key;
  name = source.name;
  description = source.description;
  project_id = source.project_id;
  owner_id = source.owner_id;
  status = source.status;
  create_at = source.create_at;
  update_at = source.update_at;
  delete_at = source.delete_at;
}

abbrev pub holds : (Source → Bool) → Option Source → Bool
holds p none = false
holds p (some x) = p x

-- The loops over the slice: the first position whose source passes the test, and its pointer.
unfoldable pub find_source : (Source → Bool) → List Source → List SourceRef → Option (ℕ × SourceRef)
find_source p heap [] = none
find_source p heap (r ∷ rs) =
    if holds p (get_elem? heap r)
    then some (0, r)
    else elim (find_source p heap rs) [ none ↦ none | some (i, q) ↦ some (suc i, q) ]

abbrev pub set_at : ℕ → SourceRef → List SourceRef → List SourceRef
set_at i q [] = []
set_at zero q (r ∷ rs) = q ∷ rs
set_at (suc i) q (r ∷ rs) = r ∷ set_at i q rs

abbrev pub has_id : String → Source → Bool
has_id id s = str_eq s.id id

abbrev pub is_users : String → String → Source → Bool
is_users owner_id id s = str_eq s.id id && str_eq s.owner_id owner_id

abbrev pub put : (List SourceRef → List SourceRef) → Store MockRepo → Store MockRepo
put f s = record s { repo = record s.repo { sources = f s.repo.sources } }

unfoldable pub insert_source : SourceRef → Exec (Store MockRepo) AddSourceResponse
unfolding dereference
insert_source source s =
    if s.repo.has_err
    then fail (repository_failed "MockRepo.InsertSource") s
    else (dereference source >>= λ x. return (response x)) (put (λ rs. rs ++ source ∷ []) s)

abbrev pub replace_found :
    SourceRef → Option (ℕ × SourceRef) → Exec (Store MockRepo) UpdateSourceResponse
unfolding dereference
replace_found source none = fail (user_not_found "MockRepo.UpdateSource")
replace_found source (some (i, _)) =
    λ s. (dereference source >>= λ x. return (response x)) (put (set_at i source) s)

unfoldable pub update_source : String → SourceRef → Exec (Store MockRepo) UpdateSourceResponse
unfolding find_source
update_source id source s =
    if s.repo.has_err
    then fail (repository_failed "MockRepo.UpdateSource") s
    else replace_found source (find_source (has_id id) s.heap s.repo.sources) s

-- `&entity.Source{}` is allocated and takes the place of the pointer.
abbrev pub clear_found : Option (ℕ × SourceRef) → Exec (Store MockRepo) (Unit {0})
unfolding allocate
clear_found none = fail (user_not_found "MockRepo.DeleteSource")
clear_found (some (i, _)) = do fresh ← allocate zero_source; λ s. (ok tt, put (set_at i fresh) s)

unfoldable pub delete_source : String → String → Exec (Store MockRepo) (Unit {0})
delete_source id _ s =
    if s.repo.has_err
    then fail (repository_failed "MockRepo.DeleteSource") s
    else clear_found (find_source (has_id id) s.heap s.repo.sources) s

abbrev pub found_reference : Option (ℕ × SourceRef) → Exec (Store MockRepo) SourceRef
found_reference none = fail (user_not_found "MockRepo.GetUserSourceById")
found_reference (some (_, r)) = return r

unfoldable pub get_user_source_by_id : String → String → Exec (Store MockRepo) SourceRef
get_user_source_by_id owner_id id s =
    if s.repo.has_err
    then fail (repository_failed "MockRepo.GetUserSourceById") s
    else found_reference (find_source (is_users owner_id id) s.heap s.repo.sources) s

unfoldable pub is_source_already_created_by_name : String → Exec (Store MockRepo) Bool
is_source_already_created_by_name name s =
    if s.repo.has_err then fail (repository_failed "MockRepo.IsSourceAlreadyCreatedByName") s else (
      ok (elim (find_source (λ x. str_eq x.name name) s.heap s.repo.sources) [
        | none ↦ false
        | some _ ↦ true
      ]),
      s,
    )

abbrev pub mock_repo : SourceRepo MockRepo
mock_repo = record {
  insert_source = insert_source;
  update_source = update_source;
  delete_source = delete_source;
  get_user_source_by_id = get_user_source_by_id;
  is_source_already_created_by_name = is_source_already_created_by_name;
}
