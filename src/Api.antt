-- ===== src/Api.antt =====
-- The client of the HTTP API, web/src/lib/api.ts: the stored token, the headers of a request, and how
-- each endpoint treats the reply. `fetch`, `localStorage` and `JSON` are the browser's: a reply is an
-- argument, and storage is a value with what the code sees of it.
pub mod Query
pub mod Token
pub mod Endpoints
pub mod Tests
use daili_usage_keeper_north.Base.{
  ℕ, ◌+◌, String, Bool, true, false, not, ◌&&◌, ◌||◌, Option, none, some, if◌then◌else◌, ◌<>◌, leb,
  ◌==◌, is_blank, decimal, str_eq, starts_with, or_else, List, [], ◌∷◌,
}

-- `window.localStorage`: it may be out of reach, and a write to it may be refused.
pub data Storage : Type 0 where
  unreachable : Storage
  holding : Bool → Option String → Storage

pub data Outcome (P : Type 0) : Type 0 where
  ok : P → Outcome P
  api_error : ℕ → String → Outcome P
  -- `fetch` or `response.json()` threw.
  thrown : Outcome P

-- A reply: its status, its body as `response.json()` gives it (`none` if it throws), and the field
-- `error` of that body.
pub record Reply (P : Type 0) : Type 0 where
  pub status : ℕ
  pub json : Option P
  pub error_field : Option String

pub record LoginResponse : Type 0 where
  pub token : String
  pub expires_at : String

pub record AuthSessionResponse : Type 0 where
  pub authenticated : Bool

unfoldable pub get_stored_token : Storage → Option String
get_stored_token unreachable = none
get_stored_token (holding writable token) = token

-- An empty token is falsy, and is removed like `null`; a refused write is ignored.
unfoldable pub set_stored_token : Option String → Storage → Storage
set_stored_token token unreachable = unreachable
set_stored_token none (holding writable old) = holding writable none
set_stored_token (some token) (holding writable old) =
    if is_blank token
    then holding writable none
    else if writable
    then holding writable (some token)
    else holding writable old

unfoldable pub clear_stored_token : Storage → Storage
unfolding set_stored_token
clear_stored_token s = set_stored_token none s

-- `Reply.ok`
abbrev pub is_ok : ℕ → Bool
is_ok status = leb 200 status && leb status 299

-- The headers that the caller gave, reduced to its `Authorization`; the result is that of the request.
unfoldable pub build_headers : Option String → Storage → Option String
unfolding get_stored_token
build_headers (some given) s = some given
build_headers none s = elim (get_stored_token s) [
  | none ↦ none
  | some token ↦ if is_blank token then none else some ("Bearer " <> token)
]

module _ {P : Type 0} where
  unfoldable pub parse_api_error : Reply P → String → Storage → Storage × Outcome P
  unfolding clear_stored_token
  parse_api_error reply fallback s = (
    if reply.status == 401 then clear_stored_token s else s,
    api_error reply.status (elim reply.error_field [
      | none ↦ fallback
      | some text ↦ if is_blank text then fallback else text
    ]),
  )

  -- What every `fetch…` function does after `await apiFetch(…)`; `none` is a rejected `fetch`.
  unfoldable pub request : Option (Reply P) → String → Storage → Storage × Outcome P
  unfolding parse_api_error
  request none failed s = (s, thrown)
  request (some reply) failed s =
      if is_ok reply.status
      then (s, elim reply.json [ none ↦ thrown | some payload ↦ ok payload ])
      else parse_api_error reply (failed <> decimal reply.status) s

unfoldable pub get_session :
    Option (Reply AuthSessionResponse) → Storage → Storage × Outcome AuthSessionResponse
unfolding parse_api_error
get_session none s = (s, thrown)
get_session (some reply) s =
    if is_ok reply.status
    then elim reply.json [
      | none ↦ (s, thrown)
      | some payload ↦ (if payload.authenticated then s else clear_stored_token s, ok payload)
    ]
    else let s' = if reply.status == 401 then clear_stored_token s else s in
      parse_api_error reply ("Failed to load auth session: " <> decimal reply.status) s'

unfoldable pub login : Option (Reply LoginResponse) → Storage → Storage × Outcome LoginResponse
unfolding parse_api_error
login none s = (s, thrown)
login (some reply) s =
    if is_ok reply.status
    then (let payload = or_else reply.json (record { token = ""; expires_at = "" }) in
        (if is_blank payload.token then s else set_stored_token (some payload.token) s, ok payload))
    else parse_api_error reply ("Failed to login: " <> decimal reply.status) (clear_stored_token s)

-- The status of the reply is not looked at, and the `finally` block runs if `fetch` is rejected too.
unfoldable pub logout : Option ℕ → Storage → Storage × Outcome (Unit {0})
unfolding clear_stored_token
logout none s = (clear_stored_token s, thrown)
logout (some status) s = (clear_stored_token s, ok tt)

-- `window.__APP_BASE_PATH__`, which the server fills in.
drop_slash : String → String
drop_slash String.[] = ""
drop_slash (String.◌∷◌ c s) =
    let rest = String.◌∷◌ c (drop_slash s) in if str_eq (String.◌∷◌ c s) "/" then "" else rest

-- `basePath.endsWith('/') ? basePath.slice(0, -1) : basePath` is `drop_slash`.
unfoldable pub normalize_base_path : Option String → String
unfolding drop_slash
normalize_base_path none = ""
normalize_base_path (some path) =
    if is_blank path || str_eq path "/" || str_eq path "__APP_BASE_PATH__"
    then ""
    else drop_slash path

unfoldable pub api_path : Option String → String → String
unfolding normalize_base_path starts_with
api_path base path =
    let normalized = if starts_with path "/" then path else "/" <> path in
    normalize_base_path base <> "/api/v1" <> normalized
