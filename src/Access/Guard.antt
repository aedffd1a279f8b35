-- ===== src/Access/Guard.antt =====
-- dlpduck/console/auth.py: the accounts, the session that a cookie carries, and what
-- stands before a page. argon2 and SHA-256 are parameters.
use dlpduck.Prelude.{
  ℕ, ◌+◌, String, Bool, true, false, not, ◌||◌, Option, none, some, List, [], ◌∷◌, str_eq,
  if◌then◌else◌,
}
use dlpduck.Access.Roles.{has_permission}
use dlpduck.Access.Sessions.{SessionFiles, create_session, session_active, revoke}

pub record UserAccount : Type 0 where
  pub username : String
  pub roles : List String

pub record LocalAccount : Type 0 where
  pub username : String
  pub password_hash : String
  pub roles : List String

-- `_by_username`: the account that was configured last comes first.
abbrev pub Accounts : Type 0
Accounts = List (String × LocalAccount)

-- request.session
pub record Session : Type 0 where
  pub username : Option String
  pub roles : Option (List String)
  pub method : Option String
  pub token : Option String
  pub credential : Option String
  pub csrf_token : Option String
  pub login_error : Option String

-- request.session.clear()
abbrev pub no_session : Session
no_session = record {
  username = none;
  roles = none;
  method = none;
  token = none;
  credential = none;
  csrf_token = none;
  login_error = none;
}

-- app.state, where each part may be missing.
pub record App : Type 0 where
  pub operations : Option SessionFiles
  pub user_store : Option Accounts
  pub session_max_age_seconds : Option ℕ

-- `LocalUserStore.get`
unfoldable pub get_account : String → Accounts → Option LocalAccount
get_account u [] = none
get_account u ((v, a) ∷ more) = if str_eq u v then some a else get_account u more

abbrev pub account_of : String → Option Accounts → Option LocalAccount
account_of u none = none
account_of u (some accounts) = get_account u accounts

-- The outcome of `_hasher.verify`, and the two errors that it raises.
pub data Verification : Type 0 where
  verified verify_mismatch invalid_hash : Verification

abbrev pub is_verified : Verification → Bool
is_verified verified = true
is_verified verify_mismatch = false
is_verified invalid_hash = false

abbrev pub is_local : Option String → Bool
is_local none = false
is_local (some m) = str_eq m "local"

-- What `get_current_user` returns, and what it leaves.
pub record Visit : Type 0 where
  pub user : Option UserAccount
  pub session : Session
  pub app : App

-- `_dependency` of `require_permission`: the user, a 401, a 403, or the ValueError of a permission
-- that does not exist.
pub data Admission : Type 0 where
  admitted : UserAccount → Admission
  login_required forbidden unknown_permission : Admission

module _ (verify : String → String → Verification) where
  abbrev checked : String → Option LocalAccount → Option LocalAccount
  checked password none = none
  checked password (some a) = if is_verified (verify a.password_hash password) then some a else none

  -- `authenticate`
  unfoldable pub authenticate : String → String → Option Accounts → Option LocalAccount
  unfolding get_account
  authenticate u password accounts = checked password (account_of u accounts)

abbrev pub nobody : App → Session → Visit
nobody app session = record { user = none; session = session; app = app }

abbrev pub someone : App → Session → String → List String → Visit
someone app session u roles = record {
  user = some (record { username = u; roles = roles });
  session = session;
  app = app;
}

abbrev pub same_credential : Option String → String → Bool
same_credential none c = false
same_credential (some d) c = str_eq d c

abbrev pub granted_to : UserAccount → Option Bool → Admission
granted_to user none = unknown_permission
granted_to user (some b) = if b then admitted user else forbidden

abbrev pub admission : String → Option UserAccount → Admission
admission permission none = login_required
admission permission (some user) = granted_to user (has_permission user.roles permission)

module _ (sha256 : String → String) where
  -- sha256(account.password_hash) if account else ""
  abbrev pub credential_for : Option LocalAccount → String
  credential_for none = ""
  credential_for (some a) = sha256 a.password_hash

  abbrev pub with_session : ℕ → String → String → Option SessionFiles → Option ℕ → App → App
  with_session now token u none age app = app
  with_session now token u (some fs) none app = app
  with_session now token u (some fs) (some age) app = record app {
    operations = some (create_session sha256 now token u (now + age) fs);
  }

  -- The session that `establish_session` leaves, whatever the request carried.
  abbrev pub new_session : String → String → List String → String → App → Session
  new_session token u roles method app = record no_session {
    username = some u;
    roles = some roles;
    method = some method;
    token = some token;
    credential =
        if is_local (some method)
        then some (credential_for (account_of u app.user_store))
        else none;
  }

  -- `establish_session`. The token is the one that `secrets` gives.
  unfoldable pub establish_session :
      ℕ → String → String → List String → String → App → Session → Session × App
  unfolding create_session get_account
  establish_session now token u roles method app session = (
    new_session token u roles method app,
    with_session now token u app.operations app.session_max_age_seconds app,
  )

  abbrev pub is_stale : ℕ → String → Option String → Option SessionFiles → Bool
  is_stale now u token none = false
  is_stale now u none (some fs) = true
  is_stale now u (some token) (some fs) =
      str_eq token "" || not (session_active sha256 now token u fs)

  -- operations.revoke(token=token), where there is a store
  abbrev pub revoke_in : Option String → Option String → Option SessionFiles → Option SessionFiles
  revoke_in token user none = none
  revoke_in token user (some fs) = some (revoke sha256 token user fs)

  abbrev pub revoke_token : Option String → App → App
  revoke_token token app = record app { operations = revoke_in token none app.operations }

  abbrev pub local_user : App → Session → String → Option LocalAccount → Visit
  local_user app session u none = nobody (revoke_token session.token app) no_session
  local_user app session u (some a) =
      if same_credential session.credential (sha256 a.password_hash)
      then someone app session u a.roles
      else nobody (revoke_token session.token app) no_session

  abbrev pub user_named : ℕ → App → Session → Option String → Option (List String) → Visit
  user_named now app session none roles = nobody app session
  user_named now app session (some u) none = nobody app session
  user_named now app session (some u) (some roles) =
      if str_eq u ""
      then nobody app session
      else if is_stale now u session.token app.operations
      then nobody app no_session
      else if is_local session.method
      then local_user app session u (account_of u app.user_store)
      else someone app session u roles

  -- `get_current_user`
  unfoldable pub get_current_user : ℕ → App → Session → Visit
  unfolding session_active get_account revoke
  get_current_user now app session = user_named now app session session.username session.roles

  -- `require_permission`, after `get_current_user`
  unfoldable pub require_permission : ℕ → String → App → Session → Admission
  unfolding get_current_user
  require_permission now permission app session =
      admission permission (get_current_user now app session).user
