-- ===== src/App.antt =====
-- web/src/App.tsx: whether the dashboard shows the login or the page, with the session and the login of
-- web/src/lib/api.ts and the stored token. An `await` ends a step.
pub mod Laws
pub mod Tests
use daili_usage_keeper_north.Base.{
  ℕ, String, Bool, true, false, Option, none, some, if◌then◌else◌, ◌==◌,
}
use daili_usage_keeper_north.Api.{
  Storage, Reply, Outcome, ok, api_error, thrown, LoginResponse, AuthSessionResponse,
  clear_stored_token, get_session, login,
}

pub data AuthState : Type 0 where
  checking authenticated unauthenticated : AuthState

-- What `t` gives for a key.
pub data LoginError : Type 0 where
  no_login_error invalid_password login_failed : LoginError

pub record App : Type 0 where
  pub auth_state : AuthState
  pub login_error : LoginError
  pub submitting : Bool
  -- `window.localStorage`.
  pub storage : Storage

-- The first render.
abbrev pub first_app : Storage → App
first_app storage = record {
  auth_state = checking;
  login_error = no_login_error;
  submitting = false;
  storage = storage;
}

abbrev pub signed_out : Storage → App → App
signed_out storage a = record a {
  auth_state = unauthenticated;
  storage = clear_stored_token storage;
}

abbrev pub session_loaded : Storage × Outcome AuthSessionResponse → App → App
session_loaded (s, ok session) a = record a {
  auth_state = if session.authenticated then authenticated else unauthenticated;
  storage = s;
}
session_loaded (s, api_error status message) a = signed_out s a
session_loaded (s, thrown) a = signed_out s a

-- `loadSession` after its request was answered.
unfoldable pub load_session : Option (Reply AuthSessionResponse) → App → App
unfolding get_session clear_stored_token
load_session reply a = session_loaded (get_session reply a.storage) a

-- `handleLogin` up to its `await`.
unfoldable pub start_login : App → App
start_login a = record a { submitting = true; login_error = no_login_error }

abbrev pub failed_login : LoginError → Storage → App → App
failed_login error s a = record a {
  login_error = error;
  auth_state = unauthenticated;
  submitting = false;
  storage = s;
}

abbrev pub login_done : Storage × Outcome LoginResponse → App → App
login_done (s, ok payload) a = record a {
  auth_state = authenticated;
  submitting = false;
  storage = s;
}
login_done (s, api_error status message) a =
    failed_login (if status == 401 then invalid_password else login_failed) s a
login_done (s, thrown) a = failed_login login_failed s a

-- The rest of `handleLogin`, after its request was answered.
unfoldable pub end_login : Option (Reply LoginResponse) → App → App
unfolding login
end_login reply a = login_done (login reply a.storage) a

-- The function `onAuthRequired` that the page is given.
unfoldable pub on_auth_required : App → App
unfolding clear_stored_token
on_auth_required a = signed_out a.storage a
