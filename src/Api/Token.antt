-- ===== src/Api/Token.antt =====
-- What the endpoints guarantee of the stored token.
use daili_usage_keeper_north.Base.{
  ℕ, ◌≡◌, ◌≢◌, refl, String, true, false, Option, none, some, arith, is_blank, decimal, ◌<>◌,
  Bool-cases, inl, inr,
}
use daili_usage_keeper_north.Api.{
  Storage, unreachable, holding, ok, Reply, LoginResponse, AuthSessionResponse, get_stored_token,
  set_stored_token, clear_stored_token, is_ok, build_headers, parse_api_error, request, get_session,
  login, logout,
}

clear_stored_token_lem : (s : Storage) → get_stored_token (clear_stored_token s) ≡ none
unfolding get_stored_token clear_stored_token
clear_stored_token_lem unreachable = refl
clear_stored_token_lem (holding w t) = refl

set_stored_token_lem :
    (t : String) (old : Option String)
    → is_blank t ≡ false
    → get_stored_token (set_stored_token (some t) (holding true old)) ≡ some t
unfolding get_stored_token set_stored_token
set_stored_token_lem t old e = rw e

module _ {P : Type 0} where
  parse_api_error-other :
      (reply : Reply P) (fallback : String) (s : Storage)
      → reply.status ≢ 401
      → (parse_api_error reply fallback s).0 ≡ s
  unfolding parse_api_error
  parse_api_error-other reply fallback s e = ground arith

  -- An endpoint that answers 401 forgets the stored token, whatever it was; any other answer, and a
  -- request that fails, leaves the storage as it was.
  pub request-storage :
      (reply : Reply P) (failed : String) (s : Storage)
      → (reply.status ≡ 401 → get_stored_token (request (some reply) failed s).0 ≡ none)
        × (reply.status ≢ 401 → (request (some reply) failed s).0 ≡ s)
        × ((request {P = P} none failed s).0 ≡ s)
  unfolding request
  request-storage reply failed s = (
    λ e. rw (e, request) (clear_stored_token_lem s),
    λ e. elim (Bool-cases (is_ok reply.status)) [
      | inl f ↦ rw f
      | inr f ↦ rw f (parse_api_error-other reply (failed <> decimal reply.status) s e)
    ],
    refl,
  )

-- A session that is refused or is not authenticated leaves no token; a valid one leaves the storage as
-- it was.
pub get_session-storage :
    (reply : Reply AuthSessionResponse) (s : Storage)
    → (reply.status ≡ 401 → get_stored_token (get_session (some reply) s).0 ≡ none)
      × ((p : AuthSessionResponse)
          → (get_session (some reply) s).1 ≡ ok p
          → (p.authenticated ≡ false → get_stored_token (get_session (some reply) s).0 ≡ none)
            × (p.authenticated ≡ true → (get_session (some reply) s).0 ≡ s))
unfolding get_session
get_session-storage reply s = (
  λ e. rw (e, get_session) (clear_stored_token_lem (clear_stored_token s)),
  λ p e. (λ f. ground (arith, clear_stored_token_lem s), λ f. ground arith),
)

-- A refused login leaves no token. An accepted one that brings a token stores it, where the storage can
-- be written, and the next request bears it; one that brings none leaves the storage as it was.
login-storage :
    (reply : Reply LoginResponse) (old : Option String)
    → let after = (login (some reply) (holding true old)).0 in
      (is_ok reply.status ≡ false → get_stored_token after ≡ none)
      × ((p : LoginResponse)
          → (login (some reply) (holding true old)).1 ≡ ok p
          → (is_blank p.token ≡ false
              → (get_stored_token after ≡ some p.token)
                × (build_headers none after ≡ some ("Bearer " <> p.token)))
            × (is_blank p.token ≡ true → after ≡ holding true old))
unfolding login build_headers set_stored_token
login-storage reply old =
    (λ e. rw e (ground arith), λ p e. (λ f. (ground arith, ground arith), λ f. ground arith))

-- Logging out forgets the token whether or not the request came through, and the next request bears
-- no authorization of its own.
pub logout-storage :
    (reply : Option ℕ) (s : Storage)
    → (get_stored_token (logout reply s).0 ≡ none) × (build_headers none (logout reply s).0 ≡ none)
unfolding logout build_headers
logout-storage none s = (clear_stored_token_lem s, ground (arith, clear_stored_token_lem s))
logout-storage (some status) s =
    (clear_stored_token_lem s, ground (arith, clear_stored_token_lem s))
