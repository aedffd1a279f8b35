-- ===== src/Access/Entitled.antt =====
-- Who gets past `require_permission` (dlpduck/console/auth.py).
use mathlib.Core.Path.{subst}
use dlpduck.Prelude.{
  ℕ, ◌<◌, String, ◌≡◌, refl, sym, ap, ◌≢◌, ◌⊎◌, inl, inr, true, false, Option, none, some, List,
  arith, str_eq, eq_iff, Bool-cases, Option-cases,
}
use dlpduck.Access.Roles.{has_permission}
use dlpduck.Access.Sessions.{Stored, SessionFiles, read_json, is_active, session_active}
use dlpduck.Access.Guard.{
  UserAccount, LocalAccount, Session, App, account_of, is_local, admitted, nobody, admission,
  is_stale, local_user, user_named, get_current_user, require_permission,
}

module _ (sha256 : String → String) where
  -- The token of the cookie names a session file of the user that has not expired.
  abbrev pub IsBacked : ℕ → String → Option String → Option SessionFiles → Type 0
  IsBacked now u token none = Unit
  IsBacked now u none (some fs) = ⊥
  IsBacked now u (some token) (some fs) =
      (r : Stored) × ((read_json (sha256 token) fs ≡ some r)
        × ((r.username ≡ some u) × ((e : ℕ) × ((r.expires ≡ some e) × (now < e)))))

  -- A local session's account still exists, under the same password, with these roles.
  abbrev pub IsCurrent : Option String → List String → Option LocalAccount → Type 0
  IsCurrent credential roles none = ⊥
  IsCurrent credential roles (some a) =
      (credential ≡ some (sha256 a.password_hash)) × (roles ≡ a.roles)

  abbrev pub Knows : ℕ → App → Session → Option (List String) → String → List String → Type 0
  Knows now app session roles u granted =
      (u ≢ "")
      × (IsBacked now u session.token app.operations
          × (((is_local session.method ≡ false) × (roles ≡ some granted))
              ⊎ ((is_local session.method ≡ true)
                  × IsCurrent session.credential granted (account_of u app.user_store))))

  is_active_lem :
      (now : ℕ) (u : String) (r : Option Stored)
      → is_active now u r ≡ true
      → (s : Stored) × ((r ≡ some s)
          × ((s.username ≡ some u) × ((e : ℕ) × ((s.expires ≡ some e) × (now < e)))))
  is_active_lem now u none h = absurd (cc h)
  is_active_lem now u (some r) h = elim (Option-cases r.username) [
    | inl nobody ↦ absurd (ground (arith, h, nobody))
    | inr (v, named) ↦ elim (Option-cases r.expires) [
      | inl never ↦ absurd (ground (arith, h, never))
      | inr (e, ends) ↦ (
        r,
        (
          refl,
          (ground (arith, h, named, ends, eq_iff u v), (e, (ends, ground (arith, h, named, ends)))),
        ),
      )
    ]
  ]

  is_stale-IsBacked :
      (now : ℕ) (u : String) (token : Option String) (fs : Option SessionFiles)
      → is_stale sha256 now u token fs ≡ false
      → IsBacked now u token fs
  unfolding session_active
  is_stale-IsBacked now u token none e = tt
  is_stale-IsBacked now u none (some fs) e = ground (arith, e)
  is_stale-IsBacked now u (some token) (some fs) e =
      is_active_lem now u (read_json (sha256 token) fs) (ground (arith, e))

  local_user_lem :
      (app : App) (session : Session) (u : String) (a : Option LocalAccount) (user : UserAccount)
      → (local_user sha256 app session u a).user ≡ some user
      → (user.username ≡ u) × IsCurrent session.credential user.roles a
  local_user_lem app session u none user e = absurd (cc e)
  local_user_lem app session u (some a) user e = elim (Option-cases session.credential) [
    | inl none_given ↦ ground (arith, e, none_given)
    | inr (c, given) ↦ ground (arith, e, given, eq_iff c (sha256 a.password_hash))
  ]

  user_named_lem :
      (now : ℕ) (app : App) (session : Session) (name : Option String)
      (roles : Option (List String)) (user : UserAccount)
      → (user_named sha256 now app session name roles).user ≡ some user
      → (name ≡ some user.username) × Knows now app session roles user.username user.roles
  user_named_lem now app session none roles user e = absurd (cc e)
  user_named_lem now app session (some u) none user e = absurd (cc e)
  user_named_lem now app session (some u) (some roles) user e = elim (Bool-cases (str_eq u "")) [
    | inl blank ↦ absurd (ground (arith, e, blank))
    | inr named ↦ elim (Bool-cases (is_stale sha256 now u session.token app.operations)) [
      | inl stale ↦ absurd (ground (arith, e, named, stale))
      | inr backed ↦ elim (Bool-cases (is_local session.method)) [
        | inl here ↦
            let found =
              local_user_lem app session u (account_of u app.user_store) user
                (ground (arith, e, named, backed, here)) in
            renamed found.0 (
              ground (arith, named, eq_iff u ""),
              (is_stale-IsBacked now u session.token app.operations backed, inr (here, found.1)),
            )
        | inr there ↦
            let found : (user.username ≡ u) × (user.roles ≡ roles) =
              ground (arith, e, named, backed, there) in
            renamed found.0 (
              ground (arith, named, eq_iff u ""),
              (
                is_stale-IsBacked now u session.token app.operations backed,
                inl (there, ap some (sym found.1)),
              ),
            )
      ]
    ]
  ]
    where
      renamed :
          user.username ≡ u
          → Knows now app session (some roles) u user.roles
          → (some u ≡ some user.username)
            × Knows now app session (some roles) user.username user.roles
      renamed same k = (
        ap some (sym same),
        subst (λ v. Knows now app session (some roles) v user.roles) (sym same) k,
      )

  admission_lem :
      (permission : String) (found : Option UserAccount) (user : UserAccount)
      → admission permission found ≡ admitted user
      → (found ≡ some user) × (has_permission user.roles permission ≡ some true)
  admission_lem permission none user e = absurd (cc e)
  admission_lem permission (some v) user e =
      elim (Option-cases (has_permission v.roles permission)) [
        | inl unknown ↦ absurd (ground (arith, e, unknown))
        | inr (b, known) ↦ ground (arith, e, known)
      ]

  -- Whoever gets past `require_permission`, with any session, is the one whom the session names, by
  -- a name that is not empty, and has the permission by the roles that the user is given. Where
  -- there is a session store, the token of the session names a file in it of that user, not
  -- expired. A session made otherwise than by a local login gives the roles that it carries; one
  -- of a local login those that the account has now, where the account still exists and its
  -- password is the one of the login.
  pub require_permission_lem :
      (now : ℕ) (permission : String) (app : App) (session : Session) (user : UserAccount)
      → require_permission sha256 now permission app session ≡ admitted user
      → (session.username ≡ some user.username)
        × ((has_permission user.roles permission ≡ some true)
            × Knows now app session session.roles user.username user.roles)
  unfolding require_permission get_current_user
  require_permission_lem now permission app session user e =
      let seen = admission_lem permission (get_current_user sha256 now app session).user user e in
      let known = user_named_lem now app session session.username session.roles user seen.0 in
      (known.0, (seen.1, known.1))
