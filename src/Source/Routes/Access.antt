-- ===== src/Source/Routes/Access.antt =====
-- Which requests to the sources' routes succeed.
use ormus.Prelude.{
  String, ◌≡◌, refl, ◌⊎◌, inl, inr, Option, none, some, Bool-cases, Outcome, ok, err, panic, str_eq,
}
use ormus.RichError.{error_text}
use ormus.Source.{Store, SourceRepo}
use ormus.Source.Routes.{
  ContextValue, unset, is_bytes, Response, http_error, json, crash, Request, Tokens, Validator,
  error_response, on_error, parse_token, get_token_from_cookie, handle_create, handle_update,
  handle_delete, Route, post_root, post_source, delete_source_route, serve, Handler,
}

abbrev pub IsRefusal : Response → Type 0
IsRefusal (http_error code text) = (code ≡ 400) ⊎ (code ≡ 500)
IsRefusal (json code body) = ⊥
IsRefusal crash = Unit

abbrev pub Refused : {S : Type 0} → S → Response × S → Type 0
Refused s (a, s') = IsRefusal a × (s' ≡ s)

error_response-400 : (o : Option String) → IsRefusal (error_response 400 o)
error_response-400 none = tt
error_response-400 (some x) = inl refl

error_response-500 : (o : Option String) → IsRefusal (error_response 500 o)
error_response-500 none = tt
error_response-500 (some x) = inr refl

on_error-400 :
    {S A : Type 0} (o : Outcome A) (s : S) (f : A → S → Response × S)
    → ((a : A) → Refused s (f a s))
    → Refused s (on_error 400 (o, s) f)
on_error-400 (ok a) s f h = h a
on_error-400 (err e) s f h = (error_response-400 (error_text e), refl)
on_error-400 panic s f h = (tt, refl)

on_error-500 :
    {S A : Type 0} (o : Outcome A) (s : S) (f : A → S → Response × S)
    → ((a : A) → Refused s (f a s))
    → Refused s (on_error 500 (o, s) f)
on_error-500 (ok a) s f h = h a
on_error-500 (err e) s f h = (error_response-500 (error_text e), refl)
on_error-500 panic s f h = (tt, refl)

module _ {Bytes S : Type 0} (t : Tokens Bytes) where
  -- The middleware hands a request on with bytes for a user, or refuses it.
  get_token-Refused :
      (next : Handler Bytes S) (r : Request) (user : ContextValue Bytes) (s : Store S)
      → ((b : Bytes) → Refused s (next r (is_bytes b) s))
      → Refused s (get_token_from_cookie t next r user s)
  unfolding get_token_from_cookie
  get_token-Refused next r user s h = on_error-400 r.cookie s _ λ token.
      elim (Bool-cases (str_eq token "")) [
        | inl e ↦ rw e (inl refl, refl)
        | inr e ↦ rw e (
            on_error-500 (parse_token t token) s _
              λ claims. on_error-500 (t.decode_string claims.user_id) s _ h)
      ]

  -- Whatever the cookie, the body, the validators and the repository are, none of the three routes
  -- serves a request: the response is 400, 500 or that of a panic, and the sources are as before.
  -- For the middleware sets bytes where the handlers ask for a text, and deleting has no middleware.
  pub serve-Refused :
      (repo : SourceRepo S) (v : Validator S) (write_key : Outcome String) (route : Route)
      (r : Request) (s : Store S)
      → Refused s (serve repo v write_key t route r s)
  unfolding serve handle_create handle_update handle_delete
  serve-Refused repo v write_key post_root r s =
      get_token-Refused (handle_create repo v write_key) r unset s λ b. (inr refl, refl)
  serve-Refused repo v write_key post_source r s =
      get_token-Refused (handle_update repo v write_key) r unset s λ b. (inr refl, refl)
  serve-Refused repo v write_key delete_source_route r s = (inr refl, refl)
