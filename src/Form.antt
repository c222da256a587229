-- ===== src/Form.antt =====
-- The forms of manager/validator: uservalidator (login.go, register.go), sourcevalidator/source.go
-- and projectvalidator/create.go. A form names the rules of each field of a request and hands them
-- to `ValidateStruct` of the library of rules, which is a parameter; what the forms share is how
-- they report its error. The rules `By` are the program's own functions.
pub mod Rules
pub mod Users
pub mod Sources
use ormus.Prelude.{
  ℕ, String, Option, none, some, List, [], ◌∷◌, Exec, Outcome, ok, err, panic, Error, invalid,
}
use ormus.RichError.{new, with_message, with_kind, with_wrapped_error, kind_invalid, error_text}

pub data Rule (S : Type 0) : Type 0 where
  required : Rule S
  length_between : ℕ → ℕ → Rule S
  matches : String → String → Rule S
  by_rule : (String → Exec S (Unit {0})) → Rule S

-- The name is the one of the field's json tag.
pub record Field (S : Type 0) : Type 0 where
  pub name : String
  pub value : String
  pub rules : List (Rule S)

-- The error of the library, and the errors of the fields where it is `validation.Errors`.
pub data Checked : Type 0 where
  valid : Checked
  failed : Error → Option (List (String × Error)) → Checked
  crashed : Checked

-- `ValidateStruct` of the fields, and `Validate` of one value.
pub record Validation (S : Type 0) : Type 0 where
  pub validate_struct : List (Field S) → S → Checked × S
  pub validate : String → List (Rule S) → S → Checked × S

abbrev pub error_msg_invalid_input : String
error_msg_invalid_input = "invalid input"

abbrev pub add_text : String → Option String → List (String × String) → List (String × String)
add_text key none fields = fields
add_text key (some text) fields = (key, text) ∷ fields

-- The loop over `errV`, which leaves out the fields without an error.
unfoldable pub field_err : List (String × Error) → List (String × String)
unfolding error_text
field_err [] = []
field_err ((key, value) ∷ rest) = add_text key (error_text value) (field_err rest)

abbrev pub fields_of : Option (List (String × Error)) → List (String × String)
unfolding field_err
fields_of none = []
fields_of (some err_v) = field_err err_v

unfoldable pub report : String → Checked → Outcome (Unit {0})
unfolding fields_of
report op valid = ok tt
report op (failed e err_v) = err (
    invalid (fields_of err_v) (
      with_wrapped_error e
        (with_kind kind_invalid (with_message error_msg_invalid_input (new op)))))
report op crashed = panic

abbrev pub reported : {S : Type 0} → String → Checked × S → Outcome (Unit {0}) × S
reported op (c, s) = (report op c, s)
