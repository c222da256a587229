-- ===== src/RichError.antt =====
-- pkg/richerror/richerror.go, pkg/httpmsg/mapper.go and the texts of pkg/errmsg/message.go. A
-- `RichError` is a value `rich operation wrapped message kind` of `Error`; its `meta`, which nothing
-- reads, is left out. Of the interface `error`, `Error()` is `error_text`: calling it on nil panics.
-- `errors.As` finds a `RichError` only at the top, since no error of the program unwraps.
pub mod Chain
use ormus.Prelude.{
  ℕ, String, Option, none, some, Bool, List, [], ◌∷◌, Error, nil, plain, rich, invalid, concat,
  str_eq, leb, ◌==◌, if◌then◌else◌,
}

abbrev pub kind_invalid : ℕ
kind_invalid = 1

abbrev pub kind_forbidden : ℕ
kind_forbidden = 2

abbrev pub kind_not_found : ℕ
kind_not_found = 3

abbrev pub kind_unexpected : ℕ
kind_unexpected = 4

abbrev pub err_some_thing_went_wrong : String
err_some_thing_went_wrong = "some thing went wrong"

-- `New`
unfoldable pub new : String → Error
new operation = rich operation nil "" 0

unfoldable pub with_message : String → Error → Error
with_message m (rich o w _ k) = rich o w m k
with_message m e = e

unfoldable pub with_wrapped_error : Error → Error → Error
with_wrapped_error w (rich o _ m k) = rich o w m k
with_wrapped_error w e = e

-- `WithKind` and `WhitKind`, which do the same.
unfoldable pub with_kind : ℕ → Error → Error
with_kind k (rich o w m _) = rich o w m k
with_kind k e = e

-- `Error` of manager/validator/error.go: the fields in the order of the map's iteration.
unfoldable pub fields_text : List (String × String) → String
fields_text [] = ""
fields_text ((key, value) ∷ fs) =
    concat (concat (concat (concat key ": ") value) "\n") (fields_text fs)

unfoldable pub error_text : Error → Option String
unfolding fields_text
error_text nil = none
error_text (plain s) = some s
error_text (rich o w m k) = some m
error_text (invalid fields e) = some (fields_text fields)

-- `RichError.Kind`
unfoldable pub kind : Error → ℕ
kind (rich o w m k) = let wrapped = kind w in if k == 0 then wrapped else k
kind e = 0

-- `RichError.Message`: of a wrapped error that is no `RichError` the text, which panics on nil.
unfoldable pub message : Error → Option String
unfolding error_text
message (rich o w m k) = let wrapped = message w in if str_eq m "" then wrapped else some m
message e = error_text e

-- `mapKindToHTTPStatusCode`
unfoldable pub map_kind_to_http_status_code : ℕ → ℕ
map_kind_to_http_status_code k =
    if k == kind_invalid
    then 422
    else if k == kind_not_found
    then 404
    else if k == kind_forbidden
    then 403
    else if k == kind_unexpected
    then 500
    else 400

abbrev pub masked : ℕ → String → String × ℕ
masked code msg = (if leb 500 code then err_some_thing_went_wrong else msg, code)

abbrev pub with_code : ℕ → Option String → Option (String × ℕ)
with_code code none = none
with_code code (some msg) = some (masked code msg)

abbrev bad_request : Option String → Option (String × ℕ)
bad_request none = none
bad_request (some msg) = some (msg, 400)

-- `httpmsg.Error`; none where a text is asked of nil.
unfoldable pub http_error : Error → Option (String × ℕ)
unfolding error_text
http_error (rich o w m k) =
    with_code (map_kind_to_http_status_code (kind (rich o w m k))) (message (rich o w m k))
http_error e = bad_request (error_text e)
