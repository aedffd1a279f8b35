-- ===== src/Access/Events.antt =====
-- What the requests that sign in and out (dlpduck/console/app.py) carry, answer and record.
use dlpduck.Prelude.{
  ℕ, String, Option, none, some, List, [], ◌∷◌, map, str_eq, is_one_of, if◌then◌else◌, keep_if,
}
use dlpduck.Throttle.{Failures}
use dlpduck.Access.Roles.{dlp_admin}
use dlpduck.Access.Sessions.{is_truthy}
use dlpduck.Access.Guard.{Session, App}

-- `_attempted_actor`: a configured name as it is, any other as its digest.
pub data Attempted : Type 0 where
  named digested : String → Attempted

pub data Reason : Type 0 where
  token_exchange_failed no_username_claim no_recognised_role : Reason
  username_collides_with_local_account : Reason

pub data AuthEvent : Type 0 where
  throttled failed : Attempted → String → AuthEvent  -- with the client, by method "local"
  failed_oidc : Option String → String → Reason → AuthEvent
  succeeded : String → String → String → List String → AuthEvent  -- actor, client, method, roles
  signed_out : String → AuthEvent
  sessions_revoked : String → String → String → AuthEvent  -- actor, user, reason

-- The roles claim of an ID token.
pub data RolesClaim : Type 0 where
  role_text : String → RolesClaim
  role_list : List String → RolesClaim
  other_claim : RolesClaim

pub record Claims : Type 0 where
  pub preferred_username : Option String
  pub sub : Option String
  pub roles : RolesClaim

-- What a request meets: app.state with the throttle.
pub record Console : Type 0 where
  pub app : App
  pub failures : Failures

-- The status of a response, what becomes of the session and of the console, and the events.
pub record Reply : Type 0 where
  pub status : ℕ
  pub session : Session
  pub console : Console
  pub events : List AuthEvent

pub data Request : Type 0 where
  login_submit : String → String → String → Request  -- username, password, client
  auth_callback : Option Claims → String → Request  -- none where the exchange raises
  logout : Request
  page : String → Request  -- one that needs the permission
  access_page : Request
  revoke_sessions : String → String → String → Request  -- username, reason, CSRF token

-- When a request comes, the token that `secrets` would give, and the session that it carries.
pub record Arriving : Type 0 where
  pub now : ℕ
  pub fresh_token : String
  pub session : Session
  pub request : Request

abbrev pub given_name : Option String → Option String → Option String
given_name none other = if is_truthy other then other else none
given_name (some s) other =
    if str_eq s "" then (if is_truthy other then other else none) else some s

-- role_map.get(r, r)
abbrev map_role : List (String × String) → String → String
map_role [] r = r
map_role ((a, b) ∷ m) r = let rest = map_role m r in if str_eq r a then b else rest

abbrev external : RolesClaim → List String
external (role_text s) = if str_eq s "" then [] else s ∷ []
external (role_list rs) = rs
external other_claim = []

abbrev sorted_roles : List String
sorted_roles = "auditor" ∷ dlp_admin ∷ "investigator" ∷ "viewer" ∷ []

-- mapped & set(ALL_ROLES), sorted
unfoldable pub granted_roles : List (String × String) → RolesClaim → List String
unfolding is_one_of
granted_roles role_map claim =
    keep_if (λ r. is_one_of r (map (map_role role_map) (external claim))) sorted_roles
