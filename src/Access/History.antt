-- ===== src/Access/History.antt =====
-- Any sequence of requests to the console (dlpduck/console/app.py): who is let in after a
-- revocation, and what the trail holds of whoever is let in.
use mathlib.Core.Path.{subst}
use dlpduck.Prelude.{
  ℕ, String, ◌≡◌, refl, sym, ◌≢◌, inl, inr, true, false, ◌||◌, none, some, List, [], arith, str_eq,
  Bool-cases, any_of,
}
use dlpduck.Access.Sessions.{SessionFiles}
use dlpduck.Access.Csrf.{verify_csrf}
use dlpduck.Access.Guard.{
  UserAccount, Session, Verification, Visit, Admission, admitted, login_required, forbidden,
  unknown_permission, revoke_in, get_current_user, require_permission,
}
use dlpduck.Access.Events.{AuthEvent, Console, Arriving}
use dlpduck.Access.Requests.{answer_revoke, revoke_all, serve}
use dlpduck.Access.Revoked.{
  IsOut, has_store, signs_in, revoke_in-user, get_current_user-has_store, refused,
}
use dlpduck.Access.Keeps.{serve-IsOut}

module _ (max_failures lockout_seconds : ℕ) (role_map : List (String × String))
    (verify : String → String → Verification) (sha256 name_digest strip : String → String) where
  abbrev serve_all : Console → List Arriving → Console × List AuthEvent
  serve_all = serve max_failures lockout_seconds role_map verify sha256 name_digest strip

  -- A revocation that was carried out leaves no readable session of the user.
  answer_revoke-IsOut :
      (console : Console) (seen : Visit) (v reason submitted : String) (a : Admission)
      → has_store seen.app.operations ≡ true
      → (answer_revoke max_failures lockout_seconds role_map verify sha256 name_digest strip console
          seen v reason submitted a).status
        ≡ 303
      → IsOut
          (strip v)
          (answer_revoke max_failures lockout_seconds role_map verify sha256 name_digest strip
            console seen v reason submitted a).console.app.operations
  answer_revoke-IsOut console seen v reason submitted (admitted user) st e =
      elim (Bool-cases (verify_csrf seen.session.csrf_token submitted)) [
        | inr bad ↦ absurd (ground (arith, bad, e))
        | inl good ↦ elim (Bool-cases (str_eq (strip v) "" || str_eq (strip reason) "")) [
          | inl blank ↦ absurd (ground (arith, good, blank, e))
          | inr full ↦ rw (good, full) (gone (ground (arith, full)))
        ]
      ]
    where
      gone :
          str_eq (strip v) "" ≡ false
          → IsOut (strip v) (revoke_in sha256 none (some (strip v)) seen.app.operations)
      gone filled = elim (revoke_in-user sha256 (strip v) seen.app.operations filled) [
        | inl missing ↦ absurd (ground (arith, st, missing))
        | inr out ↦ out
      ]
  answer_revoke-IsOut console seen v reason submitted login_required st e = absurd (ground arith)
  answer_revoke-IsOut console seen v reason submitted forbidden st e = absurd (ground arith)
  answer_revoke-IsOut console seen v reason submitted unknown_permission st e =
      absurd (ground arith)

  revoke_all-IsOut :
      (now : ℕ) (session : Session) (console : Console) (v reason submitted : String)
      → has_store console.app.operations ≡ true
      → (revoke_all max_failures lockout_seconds role_map verify sha256 name_digest strip now
          session console v reason submitted).status
        ≡ 303
      → IsOut
          (strip v)
          (revoke_all max_failures lockout_seconds role_map verify sha256 name_digest strip now
            session console v reason submitted).console.app.operations
  unfolding revoke_all
  revoke_all-IsOut now session console v reason submitted st done =
      answer_revoke-IsOut console (get_current_user sha256 now console.app session) v reason
        submitted (require_permission sha256 now "access.write" console.app session)
        (get_current_user-has_store sha256 now console.app session st) done

  -- After a revocation of a user's sessions that was carried out, by a console with a session
  -- store, no sequence of requests in which that user does not sign in again lets the user past
  -- `require_permission`, whatever session the user's request carries, at whatever time.
  pub revoked_stays_out :
      (now later : ℕ) (admin session : Session) (console : Console) (files : SessionFiles)
      (v reason submitted permission : String) (rs : List Arriving) (user : UserAccount)
      → console.app.operations ≡ some files
      → (revoke_all max_failures lockout_seconds role_map verify sha256 name_digest strip now admin
          console v reason submitted).status
        ≡ 303
      → any_of
          (signs_in (strip v))
          (serve_all
            (revoke_all max_failures lockout_seconds role_map verify sha256 name_digest strip now
              admin console v reason submitted).console
            rs).1
        ≡ false
      → require_permission sha256 later permission
          (serve_all
            (revoke_all max_failures lockout_seconds role_map verify sha256 name_digest strip now
              admin console v reason submitted).console
            rs).0.app
          session
        ≡ admitted user
      → user.username ≢ strip v
  revoked_stays_out now later admin session console files v reason submitted permission rs user st
        done quiet e =
      refused sha256 (strip v) later permission _ session user
        (serve-IsOut max_failures lockout_seconds role_map verify sha256 name_digest strip (strip v)
          _ rs (revoke_all-IsOut now admin console v reason submitted (rw st refl) done) quiet)
        e

  -- From a console whose session store is empty, whoever is let in after any sequence of requests
  -- has signed in: the trail of those requests holds an event that says so, of that name.
  pub admitted_signed_in :
      (later : ℕ) (session : Session) (console : Console) (permission : String) (rs : List Arriving)
      (user : UserAccount)
      → console.app.operations ≡ some []
      → require_permission sha256 later permission (serve_all console rs).0.app session
        ≡ admitted user
      → any_of (signs_in user.username) (serve_all console rs).1 ≡ true
  admitted_signed_in later session console permission rs user st e =
      elim (Bool-cases (any_of (signs_in user.username) (serve_all console rs).1)) [
        | inl signed ↦ signed
        | inr quiet ↦ absurd (
            refused sha256 user.username later permission _ session user
              (serve-IsOut max_failures lockout_seconds role_map verify sha256 name_digest strip
                user.username console rs (subst (IsOut user.username) (sym st) refl) quiet)
              e refl)
      ]
