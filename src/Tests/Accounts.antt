-- ===== src/Tests/Accounts.antt =====
-- The guard of a page and the sessions of the console, on concrete inputs.
use dlpduck.Prelude.{
  ℕ, String, ◌≡◌, refl, ◌≢◌, true, some, List, [], ◌∷◌, str_eq, concat, is_one_of, if◌then◌else◌,
  any_of,
}
use dlpduck.Throttle.{
  window, put_window, pop_window, drop_expired, recent, is_locked, record_success,
}
use dlpduck.Access.Roles.{grantees, any_granted, has_permission}
use dlpduck.Access.Sessions.{
  read_json, prune_expired_sessions, create_session, session_active, revoke,
}
use dlpduck.Access.Csrf.{verify_csrf}
use dlpduck.Access.Guard.{
  UserAccount, LocalAccount, Session, no_session, get_account, Verification, verified,
  verify_mismatch, authenticate, establish_session, get_current_user, require_permission,
}
use dlpduck.Access.Events.{AuthEvent, Console, login_submit, Arriving}
use dlpduck.Access.Requests.{submit_login, revoke_all, serve}
use dlpduck.Access.Entitled.{Knows, require_permission_lem}
use dlpduck.Access.Revoked.{signs_in}
use dlpduck.Access.History.{revoked_stays_out, admitted_signed_in}

abbrev digest : String → String
digest s = concat "#" s

abbrev same_string : String → String
same_string s = s

abbrev verify_plain : String → String → Verification
verify_plain h p = if str_eq h p then verified else verify_mismatch

abbrev ann : LocalAccount
ann = record { username = "ann"; password_hash = "duck"; roles = "dlp_admin" ∷ [] }

abbrev bob : LocalAccount
bob = record { username = "bob"; password_hash = "pond"; roles = "viewer" ∷ [] }

abbrev opened : Console
opened = record {
  app = record {
    operations = some [];
    user_store = some (("ann", ann) ∷ ("bob", bob) ∷ []);
    session_max_age_seconds = some 100;
  };
  failures = [];
}

abbrev submitted_by : String → String → ℕ → String → Arriving
submitted_by u p now token = record {
  now = now;
  fresh_token = token;
  session = no_session;
  request = login_submit u p "host";
}

abbrev carried : String → LocalAccount → Session
carried token a = record no_session {
  username = some a.username;
  roles = some a.roles;
  method = some "local";
  token = some token;
  credential = some (digest a.password_hash);
  csrf_token = some "c";
}

abbrev both_in : List Arriving
both_in = submitted_by "ann" "duck" 5 "t1" ∷ submitted_by "bob" "pond" 6 "t2" ∷ []

abbrev serve_here : Console → List Arriving → Console × List AuthEvent
serve_here = serve 3 60 [] verify_plain digest digest same_string

after_logins : Console
unfolding serve submit_login is_locked recent window put_window drop_expired record_success
    pop_window authenticate get_account establish_session create_session prune_expired_sessions
after_logins = (serve_here opened both_in).0

require_permission_lem_example :
    ((carried "t2" bob).username ≡ some "bob")
    × ((has_permission ("viewer" ∷ []) "jobs.list" ≡ some true)
        × Knows digest 50 after_logins.app
            (carried "t2" bob)
            (some ("viewer" ∷ []))
            "bob"
            ("viewer" ∷ []))
unfolding after_logins require_permission get_current_user session_active read_json get_account
    has_permission grantees any_granted is_one_of
require_permission_lem_example =
    require_permission_lem digest 50 "jobs.list" after_logins.app (carried "t2" bob)
      (record { username = "bob"; roles = "viewer" ∷ [] }) refl

admitted_signed_in_example : any_of (signs_in "bob") (serve_here opened both_in).1 ≡ true
unfolding serve submit_login is_locked recent window put_window drop_expired record_success
    pop_window authenticate get_account establish_session create_session prune_expired_sessions
    require_permission get_current_user session_active read_json has_permission grantees any_granted
    is_one_of
admitted_signed_in_example =
    admitted_signed_in 3 60 [] verify_plain digest digest same_string 50 (carried "t2" bob) opened
      "jobs.list" both_in (record { username = "bob"; roles = "viewer" ∷ [] }) refl refl

abbrev ann_user : UserAccount
ann_user = record { username = "ann"; roles = "dlp_admin" ∷ [] }

revoked_stays_out_example : ann_user.username ≢ "bob"
unfolding after_logins revoke_all serve submit_login is_locked recent window put_window drop_expired
    record_success pop_window authenticate get_account establish_session create_session
    prune_expired_sessions require_permission get_current_user session_active read_json
    has_permission grantees any_granted is_one_of verify_csrf revoke
revoked_stays_out_example =
    revoked_stays_out 3 60 [] verify_plain digest digest same_string 10 20 (carried "t1" ann)
      (carried "t1" ann) after_logins _ "bob" "left" "c" "jobs.purge"
      (submitted_by "ann" "duck" 15 "t3" ∷ []) ann_user refl refl refl refl
