-- ===== src/Form/Sources.antt =====
-- The forms of sources and of projects: manager/validator/sourcevalidator/source.go and
-- manager/validator/projectvalidator/create.go. `ulid.Parse` is a parameter.
use ormus.Prelude.{
  String, Bool, List, [], ◌∷◌, Exec, plain, return, fail, ◌>>=◌, str_eq, if◌then◌else◌,
}
use ormus.Form.{Rule, required, length_between, by_rule, Field, Validation, report, reported}
use ormus.Source.{AddSourceRequest, UpdateSourceRequest, Store, SourceRepo}
use ormus.Source.Routes.{Validator}

pub record CreateProjectRequest : Type 0 where
  pub user_id : String
  pub name : String

unfoldable pub validate_status : {S : Type 0} → String → Exec S (Unit {0})
validate_status s =
    if str_eq s "active"
    then return tt
    else if str_eq s "not active"
    then return tt
    else fail (plain "invalide status of source")

unfoldable pub validate_ulid : {S : Type 0} → (String → Bool) → String → Exec S (Unit {0})
validate_ulid parses s = if parses s then return tt else fail (plain "invalid id")

abbrev pub unless_used : {S : Type 0} → Bool → Exec S (Unit {0})
unless_used exist = if exist then fail (plain "this name is already usesd") else return tt

unfoldable pub is_source_already_created :
    {S : Type 0} → SourceRepo S → String → Exec (Store S) (Unit {0})
is_source_already_created repo s = do
  exist ← repo.is_source_already_created_by_name s
  unless_used exist

-- Without a json tag the name is the field's own.
abbrev pub text_field : {S : Type 0} → String → String → List (Rule S) → Field S
text_field name value rules = record { name = name; value = value; rules = required ∷ rules }

module _ {S : Type 0} (lib : Validation (Store S)) (repo : SourceRepo S)
    (parses : String → Bool) where
  unfoldable pub validate_create_source_form : AddSourceRequest → Exec (Store S) (Unit {0})
  unfolding report is_source_already_created validate_ulid
  validate_create_source_form req s = reported "sourcevalidator.ValidateCreateSourceForm" (
      lib.validate_struct
        (text_field "Name" req.name
            (length_between 5 30 ∷ by_rule (is_source_already_created repo) ∷ [])
          ∷ text_field "Description" req.description (length_between 5 100 ∷ [])
          ∷ text_field "ProjectID" req.project_id (by_rule (validate_ulid parses) ∷ [])
          ∷ [])
        s)

  unfoldable pub validate_update_source_form : UpdateSourceRequest → Exec (Store S) (Unit {0})
  unfolding report validate_status validate_ulid
  validate_update_source_form req s = reported "sourcevalidator.ValidateUpdateSourceForm" (
      lib.validate_struct
        (text_field "Name" req.name (length_between 5 30 ∷ [])
          ∷ text_field "Description" req.description (length_between 5 100 ∷ [])
          ∷ text_field "ProjectID" req.project_id (by_rule (validate_ulid parses) ∷ [])
          ∷ text_field "Status" req.status (by_rule validate_status ∷ [])
          ∷ [])
        s)

  unfoldable pub validate_id_to_delete : String → Exec (Store S) (Unit {0})
  unfolding report is_source_already_created
  validate_id_to_delete id s =
      reported "sourcevalidator.ValidateIDToDelete"
        (lib.validate id (by_rule (is_source_already_created repo) ∷ []) s)

  abbrev pub source_validator : Validator S
  source_validator = record {
    validate_create_source_form = validate_create_source_form;
    validate_update_source_form = validate_update_source_form;
    validate_id_to_delete = validate_id_to_delete;
  }

-- `Length(3, 0)` has no upper bound.
unfoldable pub validate_create_request :
    {S : Type 0} → Validation S → CreateProjectRequest → Exec S (Unit {0})
unfolding report
validate_create_request lib req s = reported "projectvalidator.ValidateCreateRequest" (
    lib.validate_struct
      (text_field "Name" req.name (length_between 3 0 ∷ [])
        ∷ text_field "UserID" req.user_id []
        ∷ [])
      s)
