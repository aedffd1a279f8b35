-- ===== src/Access/Requests.antt =====
-- The requests of the console that sign in and out (dlpduck/console/app.py), over the throttle and
-- the session store. The argon2 verification, SHA-256, the keyed digest of a name and `strip` are
-- parameters.
use dlpduck.Prelude.{
  ℕ, String, not, ◌||◌, Option, none, some, List, [], ◌∷◌, ◌++◌, str_eq, if◌then◌else◌,
}
use dlpduck.Throttle.{is_locked, record_failure, record_success}
use dlpduck.Access.Sessions.{revoke}
use dlpduck.Access.Events.{
  Attempted, named, digested, Reason, token_exchange_failed, no_username_claim, no_recognised_role,
  username_collides_with_local_account, AuthEvent, throttled, failed, failed_oidc, succeeded,
  signed_out, sessions_revoked, RolesClaim, Claims, Console, Reply, Request, login_submit,
  auth_callback, logout, page, access_page, revoke_sessions, Arriving, given_name, granted_roles,
}
use dlpduck.Access.Csrf.{verify_csrf, get_csrf_token}
use dlpduck.Access.Guard.{
  UserAccount, LocalAccount, Session, no_session, App, get_account, account_of, Verification, Visit,
  Admission, admitted, login_required, forbidden, unknown_permission, authenticate,
  establish_session, revoke_in, revoke_token, get_current_user, require_permission,
}

module _ (max_failures lockout_seconds : ℕ) (role_map : List (String × String))
    (verify : String → String → Verification) (sha256 name_digest strip : String → String) where
  abbrev attempted_by : String → Option LocalAccount → Attempted
  attempted_by u none = digested (name_digest u)
  attempted_by u (some a) = named u

  abbrev pub attempted_actor : String → App → Attempted
  attempted_actor u app = attempted_by u (account_of u app.user_store)

  abbrev replied : ℕ → Session → Console → List AuthEvent → Reply
  replied status session console events = record {
    status = status;
    session = session;
    console = console;
    events = events;
  }

  abbrev settled : Console → String → List String → String → String → Session × App → Reply
  settled console u roles method client made =
      replied 303 made.0 (record console { app = made.1 }) (succeeded u client method roles ∷ [])

  -- establish_session, and the event after it
  abbrev pub signed_in :
      ℕ → String → Session → Console → String → List String → String → String → Reply
  signed_in now token session console u roles method client =
      settled console u roles method client
        (establish_session sha256 now token u roles method console.app session)

  abbrev pub answer_login :
      ℕ → String → Session → Console → String → String → Option LocalAccount → Reply
  answer_login now token session console u client none =
      replied 401 session
        (record console {
          failures =
              record_failure max_failures lockout_seconds (u ∷ client ∷ []) now console.failures;
        })
        (failed (attempted_actor u console.app) client ∷ [])
  answer_login now token session console u client (some a) =
      signed_in now token session
        (record console { failures = record_success (u ∷ client ∷ []) console.failures }) a.username
        a.roles "local" client

  -- `login_submit`
  unfoldable pub submit_login : ℕ → String → Session → Console → String → String → String → Reply
  unfolding is_locked record_failure record_success authenticate establish_session
  submit_login now token session console u password client =
      let lock = is_locked max_failures lockout_seconds (u ∷ client ∷ []) now console.failures in
      let seen = record console { failures = lock.1 } in
      if lock.0
      then replied 429 session seen (throttled (attempted_actor u console.app) client ∷ [])
      else answer_login now token session seen u client
          (authenticate verify u password console.app.user_store)

  abbrev refused_oidc : ℕ → Session → Console → Option String → String → Reason → Reply
  refused_oidc status session console actor client reason =
      replied status session console (failed_oidc actor client reason ∷ [])

  abbrev to_login : Session → String → Session
  to_login session error = record session { login_error = some error }

  abbrev pub unless_local :
      ℕ → String → Session → Console → String → String → List String → Option LocalAccount → Reply
  unless_local now token session console client u roles (some a) =
      refused_oidc 403 session console (some u) client username_collides_with_local_account
  unless_local now token session console client u roles none =
      signed_in now token session console u roles "oidc" client

  abbrev pub with_roles : ℕ → String → Session → Console → String → String → List String → Reply
  with_roles now token session console client u [] =
      refused_oidc 403 session console (some u) client no_recognised_role
  with_roles now token session console client u (r ∷ rs) =
      unless_local now token session console client u (r ∷ rs) (account_of u console.app.user_store)

  abbrev pub named_by_claims :
      ℕ → String → Session → Console → String → RolesClaim → Option String → Reply
  named_by_claims now token session console client claim none =
      refused_oidc 303
        (to_login session "Single sign-on returned no username. Try again, or use a local account.")
        console none client no_username_claim
  named_by_claims now token session console client claim (some u) =
      with_roles now token session console client u (granted_roles role_map claim)

  -- `auth_callback`
  unfoldable pub callback : ℕ → String → Session → Console → String → Option Claims → Reply
  unfolding establish_session get_account granted_roles
  callback now token session console client none =
      refused_oidc 303
        (to_login session "Single sign-on failed. Try again, or use a local account.") console none
        client token_exchange_failed
  callback now token session console client (some c) =
      named_by_claims now token session console client c.roles
        (given_name c.preferred_username c.sub)

  abbrev farewell : Option UserAccount → List AuthEvent
  farewell none = []
  farewell (some user) = signed_out user.username ∷ []

  abbrev pub left : Console → Visit → Reply
  left console v =
      replied 303 no_session (record console { app = revoke_token sha256 v.session.token v.app })
        (farewell v.user)

  -- `logout`
  unfoldable pub sign_out : ℕ → Session → Console → Reply
  unfolding get_current_user revoke
  sign_out now session console = left console (get_current_user sha256 now console.app session)

  abbrev status_of : Admission → ℕ
  status_of (admitted user) = 200
  status_of login_required = 401
  status_of forbidden = 403
  status_of unknown_permission = 500

  abbrev pub guarded : Console → Visit → Admission → Reply
  guarded console v a = replied (status_of a) v.session (record console { app = v.app }) []

  -- A page behind require_permission, which changes nothing of this itself.
  unfoldable pub visit_page : ℕ → Session → Console → String → Reply
  unfolding require_permission get_current_user
  visit_page now session console permission =
      guarded console (get_current_user sha256 now console.app session)
        (require_permission sha256 now permission console.app session)

  abbrev pub render_access : String → Console → Visit → Admission → Reply
  render_access token console v (admitted user) =
      replied 200 (get_csrf_token token v.session).1 (record console { app = v.app }) []
  render_access token console v login_required = guarded console v login_required
  render_access token console v forbidden = guarded console v forbidden
  render_access token console v unknown_permission = guarded console v unknown_permission

  -- `access_page`, whose form carries the CSRF token
  unfoldable pub show_access : ℕ → String → Session → Console → Reply
  unfolding require_permission get_current_user get_csrf_token
  show_access now token session console =
      render_access token console (get_current_user sha256 now console.app session)
        (require_permission sha256 now "access.write" console.app session)

  abbrev pub answer_revoke : Console → Visit → String → String → String → Admission → Reply
  answer_revoke console v u reason submitted (admitted user) =
      let here = record console { app = v.app } in
      if not (verify_csrf v.session.csrf_token submitted)
      then replied 403 v.session here []
      else if str_eq (strip u) "" || str_eq (strip reason) ""
      then replied 400 v.session here []
      else replied 303 v.session
          (record console {
            app = record v.app {
              operations = revoke_in sha256 none (some (strip u)) v.app.operations;
            };
          })
          (sessions_revoked user.username (strip u) (strip reason) ∷ [])
  answer_revoke console v u reason submitted login_required = guarded console v login_required
  answer_revoke console v u reason submitted forbidden = guarded console v forbidden
  answer_revoke console v u reason submitted unknown_permission =
      guarded console v unknown_permission

  -- `revoke_sessions`
  unfoldable pub revoke_all : ℕ → Session → Console → String → String → String → Reply
  unfolding require_permission get_current_user verify_csrf revoke
  revoke_all now session console u reason submitted =
      answer_revoke console (get_current_user sha256 now console.app session) u reason submitted
        (require_permission sha256 now "access.write" console.app session)

  abbrev pub handle : ℕ → String → Session → Console → Request → Reply
  handle now token session console (login_submit u password client) =
      submit_login now token session console u password client
  handle now token session console (auth_callback claims client) =
      callback now token session console client claims
  handle now token session console logout = sign_out now session console
  handle now token session console (page permission) = visit_page now session console permission
  handle now token session console access_page = show_access now token session console
  handle now token session console (revoke_sessions u reason submitted) =
      revoke_all now session console u reason submitted

  abbrev pub answer : Console → Arriving → Reply
  answer console a = handle a.now a.fresh_token a.session console a.request

  unfoldable pub serve : Console → List Arriving → Console × List AuthEvent
  serve console [] = (console, [])
  serve console (a ∷ more) =
      let reply = answer console a in
      let rest = serve reply.console more in (rest.0, reply.events ++ rest.1)
