-- ===== src/Access/Keeps.antt =====
-- One request and then any sequence of requests (dlpduck/console/app.py): a user who has no session
-- stays without one until the user signs in.
use dlpduck.Prelude.{
  ℕ, String, ◌≡◌, refl, ◌⊎◌, inl, inr, true, false, ◌||◌, Option, none, some, List, [], ◌∷◌, arith,
  str_eq, Bool-cases, any_of, any_of-append,
}
use dlpduck.Throttle.{is_locked, record_success}
use dlpduck.Access.Csrf.{verify_csrf}
use dlpduck.Access.Guard.{
  LocalAccount, Session, account_of, Verification, Visit, Admission, admitted, login_required,
  forbidden, unknown_permission, authenticate, get_current_user, require_permission,
}
use dlpduck.Access.Events.{
  AuthEvent, RolesClaim, Claims, Console, Reply, Request, login_submit, auth_callback, logout, page,
  access_page, revoke_sessions, Arriving, given_name, granted_roles,
}
use dlpduck.Access.Requests.{
  signed_in, answer_login, submit_login, unless_local, with_roles, named_by_claims, callback,
  sign_out, visit_page, render_access, show_access, answer_revoke, revoke_all, handle, answer,
  serve,
}
use dlpduck.Access.Revoked.{
  IsOut, signs_in, revoke_in-IsOut, establish_session-IsOut, get_current_user-IsOut,
}

module _ (max_failures lockout_seconds : ℕ) (role_map : List (String × String))
    (verify : String → String → Verification) (sha256 name_digest strip : String → String) where
  abbrev answer_to : Console → Arriving → Reply
  answer_to = answer max_failures lockout_seconds role_map verify sha256 name_digest strip

  abbrev serve_all : Console → List Arriving → Console × List AuthEvent
  serve_all = serve max_failures lockout_seconds role_map verify sha256 name_digest strip

  -- The reply keeps the user out, or signs the user in.
  abbrev KeepsOut : String → Reply → Type 0
  KeepsOut u reply =
      IsOut u reply.console.app.operations ⊎ (any_of (signs_in u) reply.events ≡ true)

  signed_in-KeepsOut :
      (u : String) (now : ℕ) (token : String) (session : Session) (console : Console) (v : String)
      (roles : List String) (method client : String)
      → IsOut u console.app.operations
      → KeepsOut u (
          signed_in max_failures lockout_seconds role_map verify sha256 name_digest strip now token
            session console v roles method client)
  signed_in-KeepsOut u now token session console v roles method client h =
      elim (Bool-cases (str_eq u v)) [
        | inl same ↦ inr (rw same refl)
        | inr other ↦
            inl (
              establish_session-IsOut sha256 u now token v roles method console.app session h other)
      ]

  answer_login-KeepsOut :
      (u : String) (now : ℕ) (token : String) (session : Session) (console : Console)
      (v client : String) (found : Option LocalAccount)
      → IsOut u console.app.operations
      → KeepsOut u (
          answer_login max_failures lockout_seconds role_map verify sha256 name_digest strip now
            token session console v client found)
  answer_login-KeepsOut u now token session console v client none h = inl h
  answer_login-KeepsOut u now token session console v client (some a) h =
      signed_in-KeepsOut u now token session
        (record console { failures = record_success (v ∷ client ∷ []) console.failures }) a.username
        a.roles "local" client h

  submit_login-KeepsOut :
      (u : String) (now : ℕ) (token : String) (session : Session) (console : Console)
      (v password client : String)
      → IsOut u console.app.operations
      → KeepsOut u (
          submit_login max_failures lockout_seconds role_map verify sha256 name_digest strip now
            token session console v password client)
  unfolding submit_login
  submit_login-KeepsOut u now token session console v password client h =
      let lock = is_locked max_failures lockout_seconds (v ∷ client ∷ []) now console.failures in
      elim (Bool-cases lock.0) [
        | inl e ↦ rw e (inl h)
        | inr e ↦ rw e (
            answer_login-KeepsOut u now token session (record console { failures = lock.1 }) v
              client (authenticate verify v password console.app.user_store) h)
      ]

  unless_local-KeepsOut :
      (u : String) (now : ℕ) (token : String) (session : Session) (console : Console)
      (client v : String) (roles : List String) (found : Option LocalAccount)
      → IsOut u console.app.operations
      → KeepsOut u (
          unless_local max_failures lockout_seconds role_map verify sha256 name_digest strip now
            token session console client v roles found)
  unless_local-KeepsOut u now token session console client v roles none h =
      signed_in-KeepsOut u now token session console v roles "oidc" client h
  unless_local-KeepsOut u now token session console client v roles (some a) h = inl h

  with_roles-KeepsOut :
      (u : String) (now : ℕ) (token : String) (session : Session) (console : Console)
      (client v : String) (roles : List String)
      → IsOut u console.app.operations
      → KeepsOut u (
          with_roles max_failures lockout_seconds role_map verify sha256 name_digest strip now token
            session console client v roles)
  with_roles-KeepsOut u now token session console client v [] h = inl h
  with_roles-KeepsOut u now token session console client v (r ∷ rs) h =
      unless_local-KeepsOut u now token session console client v (r ∷ rs)
        (account_of v console.app.user_store) h

  named_by_claims-KeepsOut :
      (u : String) (now : ℕ) (token : String) (session : Session) (console : Console)
      (client : String) (claim : RolesClaim) (name : Option String)
      → IsOut u console.app.operations
      → KeepsOut u (
          named_by_claims max_failures lockout_seconds role_map verify sha256 name_digest strip now
            token session console client claim name)
  named_by_claims-KeepsOut u now token session console client claim none h = inl h
  named_by_claims-KeepsOut u now token session console client claim (some v) h =
      with_roles-KeepsOut u now token session console client v (granted_roles role_map claim) h

  callback-KeepsOut :
      (u : String) (now : ℕ) (token : String) (session : Session) (console : Console)
      (client : String) (claims : Option Claims)
      → IsOut u console.app.operations
      → KeepsOut u (
          callback max_failures lockout_seconds role_map verify sha256 name_digest strip now token
            session console client claims)
  unfolding callback
  callback-KeepsOut u now token session console client none h = inl h
  callback-KeepsOut u now token session console client (some c) h =
      named_by_claims-KeepsOut u now token session console client c.roles
        (given_name c.preferred_username c.sub) h

  sign_out-KeepsOut :
      (u : String) (now : ℕ) (session : Session) (console : Console)
      → IsOut u console.app.operations
      → KeepsOut u (
          sign_out max_failures lockout_seconds role_map verify sha256 name_digest strip now session
            console)
  unfolding sign_out
  sign_out-KeepsOut u now session console h =
      let v = get_current_user sha256 now console.app session in
      inl (
        revoke_in-IsOut sha256 u v.session.token none v.app.operations
          (get_current_user-IsOut sha256 u now console.app session h))

  answer_revoke-KeepsOut :
      (u : String) (console : Console) (v : Visit) (w reason submitted : String) (a : Admission)
      → IsOut u v.app.operations
      → KeepsOut u (
          answer_revoke max_failures lockout_seconds role_map verify sha256 name_digest strip
            console v w reason submitted a)
  answer_revoke-KeepsOut u console v w reason submitted (admitted user) h =
      let gone = revoke_in-IsOut sha256 u none (some (strip w)) v.app.operations h in
      elim (Bool-cases (verify_csrf v.session.csrf_token submitted)) [
        | inr e ↦ rw e (inl h)
        | inl e ↦ elim (Bool-cases (str_eq (strip w) "" || str_eq (strip reason) "")) [
          | inl blank ↦ rw (e, blank) (inl h)
          | inr full ↦ rw (e, full) (inl gone)
        ]
      ]
  answer_revoke-KeepsOut u console v w reason submitted login_required h = inl h
  answer_revoke-KeepsOut u console v w reason submitted forbidden h = inl h
  answer_revoke-KeepsOut u console v w reason submitted unknown_permission h = inl h

  revoke_all-KeepsOut :
      (u : String) (now : ℕ) (session : Session) (console : Console) (v reason submitted : String)
      → IsOut u console.app.operations
      → KeepsOut u (
          revoke_all max_failures lockout_seconds role_map verify sha256 name_digest strip now
            session console v reason submitted)
  unfolding revoke_all
  revoke_all-KeepsOut u now session console v reason submitted h =
      answer_revoke-KeepsOut u console (get_current_user sha256 now console.app session) v reason
        submitted (require_permission sha256 now "access.write" console.app session)
        (get_current_user-IsOut sha256 u now console.app session h)

  render_access-KeepsOut :
      (u token : String) (console : Console) (v : Visit) (a : Admission)
      → IsOut u v.app.operations
      → KeepsOut u (
          render_access max_failures lockout_seconds role_map verify sha256 name_digest strip token
            console v a)
  render_access-KeepsOut u token console v (admitted user) h = inl h
  render_access-KeepsOut u token console v login_required h = inl h
  render_access-KeepsOut u token console v forbidden h = inl h
  render_access-KeepsOut u token console v unknown_permission h = inl h

  answer-KeepsOut :
      (u : String) (console : Console) (now : ℕ) (token : String) (session : Session)
      (request : Request)
      → IsOut u console.app.operations
      → KeepsOut u (
          handle max_failures lockout_seconds role_map verify sha256 name_digest strip now token
            session console request)
  unfolding visit_page show_access
  answer-KeepsOut u console now token session (login_submit v password client) h =
      submit_login-KeepsOut u now token session console v password client h
  answer-KeepsOut u console now token session (auth_callback claims client) h =
      callback-KeepsOut u now token session console client claims h
  answer-KeepsOut u console now token session logout h = sign_out-KeepsOut u now session console h
  answer-KeepsOut u console now token session (page permission) h =
      inl (get_current_user-IsOut sha256 u now console.app session h)
  answer-KeepsOut u console now token session access_page h =
      render_access-KeepsOut u token console (get_current_user sha256 now console.app session)
        (require_permission sha256 now "access.write" console.app session)
        (get_current_user-IsOut sha256 u now console.app session h)
  answer-KeepsOut u console now token session (revoke_sessions v reason submitted) h =
      revoke_all-KeepsOut u now session console v reason submitted h

  pub serve-IsOut :
      (u : String) (console : Console) (rs : List Arriving)
      → IsOut u console.app.operations
      → any_of (signs_in u) (serve_all console rs).1 ≡ false
      → IsOut u (serve_all console rs).0.app.operations
  unfolding serve
  serve-IsOut u console [] h quiet = h
  serve-IsOut u console (a ∷ rs) h quiet =
      let reply = answer_to console a in
      let parts = any_of-append (signs_in u) reply.events (serve_all reply.console rs).1 in
      elim (answer-KeepsOut u console a.now a.fresh_token a.session a.request h) [
        | inl out ↦ serve-IsOut u reply.console rs out (ground (arith, parts, quiet))
        | inr came ↦ absurd (ground (arith, parts, quiet, came))
      ]
