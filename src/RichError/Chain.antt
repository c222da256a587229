-- ===== src/RichError/Chain.antt =====
-- What a chain of wrapped errors answers to its outermost caller.
use ormus.Prelude.{
  ℕ, zero, suc, String, ◌≡◌, refl, ap, ◌≢◌, ◌↔◌, ◌⊎◌, inl, inr, Option, none, some, true, Error,
  nil, plain, rich, invalid, str_eq, arith, List, [], ◌∷◌, Bool-cases,
}
use ormus.RichError.{
  error_text, kind, with_code, message, map_kind_to_http_status_code, http_error,
  err_some_thing_went_wrong,
}

-- The kinds along a chain, outermost first, up to the first error that is no `RichError`.
abbrev pub kinds : Error → List ℕ
kinds (rich o w m k) = k ∷ kinds w
kinds e = []

abbrev pub first_set : List ℕ → ℕ
first_set [] = 0
first_set (zero ∷ ks) = first_set ks
first_set (suc k ∷ ks) = suc k

-- The kind of a chain is the first that is set, and 0 if none is.
pub kind-first_set : (e : Error) → kind e ≡ first_set (kinds e)
unfolding kind
kind-first_set nil = refl
kind-first_set (plain s) = refl
kind-first_set (invalid fs e) = refl
kind-first_set (rich o w m zero) = kind-first_set w
kind-first_set (rich o w m (suc k)) = ground arith

-- A chain is silent if no error of it has a message and the innermost wraps nothing.
abbrev pub IsSilent : Error → Type 0
IsSilent nil = Unit
IsSilent (plain s) = ⊥
IsSilent (invalid fs e) = ⊥
IsSilent (rich o w m k) = (str_eq m "" ≡ true) × IsSilent w

-- To ask a chain for its message panics exactly if it is silent.
pub message-eq-none : (e : Error) → (message e ≡ none) ↔ IsSilent e
unfolding message error_text
message-eq-none nil = (λ h. tt, λ h. refl)
message-eq-none (plain s) = (λ h. cc, λ h. absurd h)
message-eq-none (invalid fs e) = (λ h. cc, λ h. absurd h)
message-eq-none (rich o w m k) = elim (Bool-cases (str_eq m "")) [
  | inl e ↦ rw e (λ h. (refl, (message-eq-none w).0 h), λ h. (message-eq-none w).1 h.1)
  | inr e ↦ rw e (λ h. cc, λ h. cc)
]

code_cases :
    (k : ℕ)
    → let code = map_kind_to_http_status_code k in
      (code ≡ 400) ⊎ (code ≡ 403) ⊎ (code ≡ 404) ⊎ (code ≡ 422) ⊎ (code ≡ 500)
unfolding map_kind_to_http_status_code
code_cases k = ground arith

with_code-none : (code : ℕ) (o : Option String) → (with_code code o ≡ none) ↔ (o ≡ none)
with_code-none code none = (λ h. refl, λ h. refl)
with_code-none code (some m) = (λ h. cc, λ h. cc)

with_code-some :
    (k : ℕ) (o : Option String) (s : String) (code : ℕ)
    → with_code (map_kind_to_http_status_code k) o ≡ some (s, code)
    → (code ≡ map_kind_to_http_status_code k)
      × (code ≡ 500 → s ≡ err_some_thing_went_wrong)
      × (code ≢ 500 → o ≡ some s)
with_code-some k none s code h = cc
with_code-some k (some m) s code h = ground (arith, h, code_cases k)

-- The answer to a client is there exactly if the chain is not silent. Its code is that of the first
-- kind that is set, one of five; at 500 the text tells nothing but that something went wrong, and
-- otherwise it is the chain's message.
pub http_error_lem :
    (o m : String) (w : Error) (k : ℕ)
    → let e = rich o w m k in
      ((http_error e ≡ none) ↔ IsSilent e)
      × ((s : String) (code : ℕ)
          → http_error e ≡ some (s, code)
          → (code ≡ map_kind_to_http_status_code (first_set (kinds e)))
            × ((code ≡ 400) ⊎ (code ≡ 403) ⊎ (code ≡ 404) ⊎ (code ≡ 422) ⊎ (code ≡ 500))
            × (code ≡ 500 → s ≡ err_some_thing_went_wrong)
            × (code ≢ 500 → message e ≡ some s))
unfolding http_error
http_error_lem o m w k =
    let e = rich o w m k in
    (
      (
        λ h. (message-eq-none e).0 ((with_code-none _ (message e)).0 h),
        λ h. (with_code-none _ (message e)).1 ((message-eq-none e).1 h),
      ),
      λ s code h.
          let (is_code, masked_text, own_text) = with_code-some (kind e) (message e) s code h in
          (
            rw is_code (ap map_kind_to_http_status_code (kind-first_set e)),
            rw is_code (code_cases (kind e)),
            masked_text,
            own_text,
          ),
    )
