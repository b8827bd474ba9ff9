-- ===== src/App/Laws.antt =====
-- The login over any sequence of events.
use daili_usage_keeper_north.Base.{◌≡◌, true, Option, none, ◌⊎◌, inl, inr, arith}
use daili_usage_keeper_north.Api.{
  Storage, Reply, LoginResponse, AuthSessionResponse, get_stored_token, build_headers,
}
use daili_usage_keeper_north.App.{
  unauthenticated, App, first_app, load_session, start_login, end_login, on_auth_required,
}

-- The form of the login can be sent while it is shown and no login is on its way.
pub data Step : App → App → Type 0 where
  session_answered :
      (reply : Option (Reply AuthSessionResponse)) (a : App) → Step a (load_session reply a)
  submitted : (a : App) → a.auth_state ≡ unauthenticated → Step a (start_login a)
  login_answered :
      (reply : Option (Reply LoginResponse)) (a : App)
      → a.submitting ≡ true
      → Step a (end_login reply a)
  auth_required : (a : App) → Step a (on_auth_required a)

pub data Reach : App → Type 0 where
  mounted : (storage : Storage) → Reach (first_app storage)
  next : {a b : App} → Reach a → Step a b → Reach b

-- While the login is shown, and while one is on its way, no token is stored.
pub record IsSignedOut (a : App) : Type 0 where
  pub shown : a.auth_state ≡ unauthenticated → get_stored_token a.storage ≡ none
  pub sent : a.submitting ≡ true → get_stored_token a.storage ≡ none

load_session-IsSignedOut :
    (reply : Option (Reply AuthSessionResponse)) (a : App)
    → IsSignedOut a
    → IsSignedOut (load_session reply a)
unfolding load_session get_stored_token
load_session-IsSignedOut reply a h = ground arith

start_login-IsSignedOut :
    (a : App) → a.auth_state ≡ unauthenticated → IsSignedOut a → IsSignedOut (start_login a)
unfolding start_login
start_login-IsSignedOut a u h = ground arith

end_login-IsSignedOut :
    (reply : Option (Reply LoginResponse)) (a : App)
    → a.submitting ≡ true
    → IsSignedOut a
    → IsSignedOut (end_login reply a)
unfolding end_login get_stored_token
end_login-IsSignedOut reply a u h = ground arith

on_auth_required-IsSignedOut : (a : App) → IsSignedOut (on_auth_required a)
unfolding on_auth_required get_stored_token
on_auth_required-IsSignedOut a = ground arith

Reach-IsSignedOut : {a : App} → Reach a → IsSignedOut a
Reach-IsSignedOut (mounted s) = record { shown = λ e. cc; sent = λ e. cc }
Reach-IsSignedOut (next r (session_answered reply a)) =
    load_session-IsSignedOut reply a (Reach-IsSignedOut r)
Reach-IsSignedOut (next r (submitted a u)) = start_login-IsSignedOut a u (Reach-IsSignedOut r)
Reach-IsSignedOut (next r (login_answered reply a u)) =
    end_login-IsSignedOut reply a u (Reach-IsSignedOut r)
Reach-IsSignedOut (next r (auth_required a)) = on_auth_required-IsSignedOut a

headers_signed_out : (s : Storage) → get_stored_token s ≡ none → build_headers none s ≡ none
unfolding build_headers
headers_signed_out s h = ground arith

-- Whatever answers to the session and to logins, and requests for a login, come in whatever order, with
-- one login on its way at a time: while the login is shown, and while one is on its way, no
-- token is stored, and a request bears no authorization of its own.
pub Reach-signed_out :
    {a : App}
    → Reach a
    → (a.auth_state ≡ unauthenticated) ⊎ (a.submitting ≡ true)
    → (get_stored_token a.storage ≡ none) × (build_headers none a.storage ≡ none)
Reach-signed_out {a} r (inl e) =
    let out = (Reach-IsSignedOut r).shown e in (out, headers_signed_out a.storage out)
Reach-signed_out {a} r (inr e) =
    let out = (Reach-IsSignedOut r).sent e in (out, headers_signed_out a.storage out)
