-- ===== src/App/Tests.antt =====
-- The login at a concrete sequence of events.
use daili_usage_keeper_north.Base.{◌≡◌, refl, true, none, some, inl}
use daili_usage_keeper_north.Api.{holding, get_stored_token, build_headers}
use daili_usage_keeper_north.App.{
  App, unauthenticated, authenticated, first_app, load_session, start_login, end_login,
  on_auth_required,
}
use daili_usage_keeper_north.App.Laws.{Step, Reach, Reach-signed_out}

-- A token of an older session is refused, a login brings a new one, and the server refuses it later.
abbrev opened : App
opened = load_session none (first_app (holding true (some "old")))

abbrev logged_in : App
logged_in =
    end_login
      (some (record {
        status = 200;
        json = some (record { token = "new"; expires_at = "" });
        error_field = none;
      }))
      (start_login opened)

new_token :
    (logged_in.auth_state ≡ authenticated) × (get_stored_token logged_in.storage ≡ some "new")
unfolding end_login start_login load_session get_stored_token
new_token = (refl, refl)

abbrev refused : App
refused = on_auth_required logged_in

refused-Reach : Reach refused
unfolding load_session start_login
refused-Reach =
    Reach.next
      (Reach.next
        (Reach.next
          (Reach.next (Reach.mounted (holding true (some "old")))
            (Step.session_answered none (first_app (holding true (some "old")))))
          (Step.submitted opened refl))
        (Step.login_answered _ (start_login opened) refl))
      (Step.auth_required logged_in)

refused-unauthenticated : refused.auth_state ≡ unauthenticated
unfolding on_auth_required
refused-unauthenticated = refl

Reach-signed_out_example :
    (get_stored_token refused.storage ≡ none) × (build_headers none refused.storage ≡ none)
Reach-signed_out_example = Reach-signed_out refused-Reach (inl refused-unauthenticated)
