-- ===== src/Source/Routes.antt =====
-- manager/delivery/httpserver: the middleware that reads the token, the three handlers of
-- sourcehandler and their routes. Of echo the model has what a handler reads of the request and the
-- values that it sets in the context; a response is a status code with a text or a body. The
-- library of tokens, encoding/base64 and the form of the validators' answers are parameters.
pub mod Access
use ormus.Prelude.{
  ℕ, String, Option, none, some, Bool, true, false, Exec, Outcome, ok, err, panic, Error, nil,
  str_eq, if◌then◌else◌,
}
use ormus.RichError.{new, with_wrapped_error, error_text}
use ormus.Source.{
  AddSourceRequest, UpdateSourceRequest, AddSourceResponse, Store, SourceRepo, create_source,
  update_source, delete_source,
}

-- A value of the context; `Bytes` is `[]byte`.
pub data ContextValue (Bytes : Type 0) : Type 0 where
  unset : ContextValue Bytes
  is_string : String → ContextValue Bytes
  is_bytes : Bytes → ContextValue Bytes

pub data Body : Type 0 where
  source_response : AddSourceResponse → Body
  empty : Body

-- The recovery of echo answers a panic; `crash` says that there was one.
pub data Response : Type 0 where
  http_error : ℕ → String → Response
  json : ℕ → Body → Response
  crash : Response

-- What the handlers read of a request: the cookie, the result of the binding, the parameter.
pub record Request : Type 0 where
  pub cookie : Outcome String
  pub source_id : String
  pub bound_add : Outcome AddSourceRequest
  pub bound_update : Outcome UpdateSourceRequest

pub record Claims : Type 0 where
  pub user_id : String
  pub valid : Bool

-- `ParseWithClaims` after the prefix was taken off, for the service's key; `DecodeString`.
pub record Tokens (Bytes : Type 0) : Type 0 where
  pub parse_with_claims : String → Outcome Claims
  pub decode_string : String → Outcome Bytes

pub record Validator (S : Type 0) : Type 0 where
  pub validate_create_source_form : AddSourceRequest → Exec (Store S) (Unit {0})
  pub validate_update_source_form : UpdateSourceRequest → Exec (Store S) (Unit {0})
  pub validate_id_to_delete : String → Exec (Store S) (Unit {0})

abbrev pub error_response : ℕ → Option String → Response
error_response code none = crash
error_response code (some text) = http_error code text

-- The pattern `if err != nil { return echo.NewHTTPError(code, …) }`.
abbrev pub on_error : {S A : Type 0} → ℕ → Outcome A × S → (A → S → Response × S) → Response × S
on_error code (ok a, s) f = f a s
on_error code (err e, s) f = (error_response code (error_text e), s)
on_error code (panic, s) f = (crash, s)

-- `ParseToken`
abbrev pub checked : Outcome Claims → Outcome Claims
checked (ok c) = if c.valid then ok c else err (with_wrapped_error nil (new "parse token failed"))
checked (err e) = err (with_wrapped_error e (new "parse token failed"))
checked panic = panic

unfoldable pub parse_token : {Bytes : Type 0} → Tokens Bytes → String → Outcome Claims
parse_token t bearer_token = checked (t.parse_with_claims bearer_token)

-- `ctx.Get("userID").(string)`
abbrev pub with_user_id :
    {Bytes S : Type 0} → ContextValue Bytes → (String → S → Response × S) → S → Response × S
with_user_id (is_string user_id) f s = f user_id s
with_user_id v f s = (http_error 500 "can not get userID", s)

abbrev pub Handler : Type 0 → Type 0 → Type 0
Handler Bytes S = Request → ContextValue Bytes → Store S → Response × Store S

unfoldable pub get_token_from_cookie :
    {Bytes S : Type 0} → Tokens Bytes → Handler Bytes S → Handler Bytes S
unfolding parse_token
get_token_from_cookie t next r user s =
    on_error 400 (r.cookie, s)
      λ token s.
        if str_eq token ""
        then (http_error 400 "jwt token cookie is nil", s)
        else on_error 500 (parse_token t token, s)
            λ claims s.
              on_error 500 (t.decode_string claims.user_id, s)
                λ user_id s. next r (is_bytes user_id) s

-- The routes of `SetSourceRoute`.
pub data Route : Type 0 where
  post_root post_source delete_source_route : Route

module _ {Bytes S : Type 0} (repo : SourceRepo S) (v : Validator S)
    (write_key : Outcome String) where
  unfoldable pub handle_create : Handler Bytes S
  handle_create r user = with_user_id user λ user_id s.
      on_error 400 (r.bound_add, s)
        λ req s. on_error 400 (v.validate_create_source_form req s) λ _ s.
          on_error 500 (create_source repo write_key req user_id s)
            λ a s. (json 201 (source_response a), s)

  unfoldable pub handle_update : Handler Bytes S
  handle_update r user = with_user_id user λ user_id s.
      on_error 400 (r.bound_update, s)
        λ req s. on_error 400 (v.validate_update_source_form req s) λ _ s.
          on_error 400 (update_source repo user_id r.source_id req s)
            λ a s. (json 201 (source_response a), s)

  unfoldable pub handle_delete : Handler Bytes S
  handle_delete r user = with_user_id user λ user_id s.
      on_error 400 (v.validate_id_to_delete r.source_id s)
        λ _ s. on_error 400 (delete_source repo r.source_id user_id s) λ _ s. (json 204 empty, s)

  -- A new context has no values.
  unfoldable pub serve : Tokens Bytes → Route → Request → Store S → Response × Store S
  unfolding get_token_from_cookie handle_create handle_update handle_delete
  serve t post_root r = get_token_from_cookie t handle_create r unset
  serve t post_source r = get_token_from_cookie t handle_update r unset
  serve t delete_source_route r = handle_delete r unset
