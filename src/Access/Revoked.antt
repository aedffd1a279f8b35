-- ===== src/Access/Revoked.antt =====
-- The session store over any sequence of requests (dlpduck/console/app.py,
-- dlpduck/operations.py): whose sessions it holds, and what a revocation leaves.
use mathlib.Core.Path.{subst}
use dlpduck.Prelude.{
  ℕ, String, ◌≡◌, refl, ◌≢◌, ◌⊎◌, inl, inr, Bool, true, false, not, Option, none, some, List, [],
  ◌∷◌, arith, str_eq, eq_iff, Bool-cases, keep_if, any_of,
}
use dlpduck.Access.Sessions.{
  Stored, SessionFiles, read_json, is_fresh, prune_expired_sessions, belongs_to, is_active,
  revoke_user, create_session, revoke, is_held,
}
use dlpduck.Access.Guard.{
  UserAccount, LocalAccount, Session, App, account_of, is_local, admitted, same_credential,
  with_session, establish_session, is_stale, revoke_in, local_user, user_named, get_current_user,
  require_permission,
}
use dlpduck.Access.Events.{
  AuthEvent, throttled, failed, failed_oidc, succeeded, signed_out, sessions_revoked,
}
use dlpduck.Access.Entitled.{IsBacked, require_permission_lem}

any_of-keep_if :
    {A : Type 0} (p q : A → Bool) (xs : List A)
    → any_of p xs ≡ false
    → any_of p (keep_if q xs) ≡ false
any_of-keep_if p q [] h = refl
any_of-keep_if p q (x ∷ xs) h = ground (arith, h, any_of-keep_if p q xs)

none_of-keep_if :
    {A : Type 0} (p : A → Bool) (xs : List A) → any_of p (keep_if (λ x. not (p x)) xs) ≡ false
none_of-keep_if p [] = refl
none_of-keep_if p (x ∷ xs) = ground (arith, none_of-keep_if p xs)

read_json-is_held :
    (u name : String) (fs : SessionFiles)
    → is_held u fs ≡ false
    → belongs_to u (read_json name fs) ≡ false
unfolding read_json
read_json-is_held u name [] h = refl
read_json-is_held u name ((f, r) ∷ fs) h = elim (Bool-cases (str_eq name f)) [
  | inl same ↦ rw same (ground (arith, h))
  | inr other ↦ rw other (read_json-is_held u name fs (ground (arith, h)))
]

is_active-belongs_to :
    (now : ℕ) (u : String) (r : Option Stored) → belongs_to u r ≡ false → is_active now u r ≡ false
is_active-belongs_to now u none h = refl
is_active-belongs_to now u (some r) h = rw h refl

-- There is a store, and no readable session in it is of the user.
abbrev pub IsOut : String → Option SessionFiles → Type 0
IsOut u none = ⊥
IsOut u (some fs) = is_held u fs ≡ false

abbrev pub has_store : Option SessionFiles → Bool
has_store none = false
has_store (some fs) = true

abbrev pub signs_in : String → AuthEvent → Bool
signs_in u (throttled a c) = false
signs_in u (failed a c) = false
signs_in u (failed_oidc a c r) = false
signs_in u (succeeded v c m roles) = str_eq u v
signs_in u (signed_out v) = false
signs_in u (sessions_revoked v w r) = false

module _ (sha256 : String → String) where
  revoke_user-IsOut :
      (u : String) (user : Option String) (fs : SessionFiles)
      → is_held u fs ≡ false
      → is_held u (revoke_user user fs) ≡ false
  revoke_user-IsOut u none fs h = h
  revoke_user-IsOut u (some v) fs h =
      let kept = any_of-keep_if (λ f. belongs_to u f.1) (λ f. not (belongs_to v f.1)) fs h in
      elim (Bool-cases (str_eq v "")) [ inl e ↦ rw e h | inr e ↦ rw e kept ]

  pub revoke_in-IsOut :
      (u : String) (token user : Option String) (fs : Option SessionFiles)
      → IsOut u fs
      → IsOut u (revoke_in sha256 token user fs)
  unfolding revoke
  revoke_in-IsOut u token user none h = h
  revoke_in-IsOut u none user (some fs) h = revoke_user-IsOut u user fs h
  revoke_in-IsOut u (some t) user (some fs) h =
      let cut = any_of-keep_if (λ f. belongs_to u f.1) (λ f. not (str_eq (sha256 t) f.0)) fs h in
      elim (Bool-cases (str_eq t "")) [
        | inl e ↦ rw e (revoke_user-IsOut u user fs h)
        | inr e ↦ rw e cut
      ]

  pub revoke_in-user :
      (u : String) (fs : Option SessionFiles)
      → str_eq u "" ≡ false
      → (fs ≡ none) ⊎ IsOut u (revoke_in sha256 none (some u) fs)
  unfolding revoke
  revoke_in-user u none e = inl refl
  revoke_in-user u (some fs) e = inr (rw e (none_of-keep_if (λ f. belongs_to u f.1) fs))

  with_session-IsOut :
      (u : String) (now : ℕ) (token v : String) (fs : Option SessionFiles) (age : Option ℕ)
      (app : App)
      → IsOut u app.operations
      → IsOut u fs
      → str_eq u v ≡ false
      → IsOut u (with_session sha256 now token v fs age app).operations
  unfolding create_session prune_expired_sessions
  with_session-IsOut u now token v none age app h g e = h
  with_session-IsOut u now token v (some fs) none app h g e = h
  with_session-IsOut u now token v (some fs) (some age) app h g e = rw e (
      any_of-keep_if (λ f. belongs_to u f.1) (λ f. not (str_eq (sha256 token) f.0)) _
        (any_of-keep_if (λ f. belongs_to u f.1) (λ f. is_fresh now f.1) fs g))

  pub establish_session-IsOut :
      (u : String) (now : ℕ) (token v : String) (roles : List String) (method : String) (app : App)
      (session : Session)
      → IsOut u app.operations
      → str_eq u v ≡ false
      → IsOut u (establish_session sha256 now token v roles method app session).1.operations
  unfolding establish_session
  establish_session-IsOut u now token v roles method app session h e =
      with_session-IsOut u now token v app.operations app.session_max_age_seconds app h h e

  -- What holds of a store and of what a revocation leaves of it.
  module _ (P : Option SessionFiles → Type 0)
      (revoked : (token : Option String) (fs : Option SessionFiles)
        → P fs
        → P (revoke_in sha256 token none fs)) where
    local_user_keeps :
        (app : App) (session : Session) (v : String) (a : Option LocalAccount)
        → P app.operations
        → P (local_user sha256 app session v a).app.operations
    local_user_keeps app session v none h = revoked session.token app.operations h
    local_user_keeps app session v (some a) h =
        let gone = revoked session.token app.operations h in
        elim (Bool-cases (same_credential session.credential (sha256 a.password_hash))) [
          | inl e ↦ rw e h
          | inr e ↦ rw e gone
        ]

    user_named_keeps :
        (now : ℕ) (app : App) (session : Session) (name : Option String)
        (roles : Option (List String))
        → P app.operations
        → P (user_named sha256 now app session name roles).app.operations
    user_named_keeps now app session none roles h = h
    user_named_keeps now app session (some v) none h = h
    user_named_keeps now app session (some v) (some roles) h = elim (Bool-cases (str_eq v "")) [
      | inl e ↦ rw e h
      | inr e ↦ elim (Bool-cases (is_stale sha256 now v session.token app.operations)) [
        | inl stale ↦ rw (e, stale) h
        | inr backed ↦ elim (Bool-cases (is_local session.method)) [
          | inl here ↦
              rw (e, backed, here) (local_user_keeps app session v (account_of v app.user_store) h)
          | inr there ↦ rw (e, backed, there) h
        ]
      ]
    ]

    get_current_user_keeps :
        (now : ℕ) (app : App) (session : Session)
        → P app.operations
        → P (get_current_user sha256 now app session).app.operations
    unfolding get_current_user
    get_current_user_keeps now app session h =
        user_named_keeps now app session session.username session.roles h

  pub get_current_user-IsOut :
      (u : String) (now : ℕ) (app : App) (session : Session)
      → IsOut u app.operations
      → IsOut u (get_current_user sha256 now app session).app.operations
  get_current_user-IsOut u now app session h =
      get_current_user_keeps (IsOut u) (λ token fs k. revoke_in-IsOut u token none fs k) now app
        session h

  revoke_in-has_store :
      (token : Option String) (fs : Option SessionFiles)
      → has_store fs ≡ true
      → has_store (revoke_in sha256 token none fs) ≡ true
  revoke_in-has_store token none h = h
  revoke_in-has_store token (some fs) h = refl

  pub get_current_user-has_store :
      (now : ℕ) (app : App) (session : Session)
      → has_store app.operations ≡ true
      → has_store (get_current_user sha256 now app session).app.operations ≡ true
  get_current_user-has_store now app session h =
      get_current_user_keeps (λ fs. has_store fs ≡ true) revoke_in-has_store now app session h

  IsBacked-IsOut :
      (now : ℕ) (u : String) (token : Option String) (fs : Option SessionFiles)
      → IsOut u fs
      → IsBacked sha256 now u token fs
      → ⊥
  IsBacked-IsOut now u token none h b = h
  IsBacked-IsOut now u none (some fs) h b = b
  IsBacked-IsOut now u (some token) (some fs) h (r, (found, (owned, more))) =
      let off : belongs_to u (some r) ≡ false =
        subst (λ o. belongs_to u o ≡ false) found (read_json-is_held u (sha256 token) fs h) in
      absurd (ground (arith, off, owned, eq_iff u u))

  pub refused :
      (u : String) (now : ℕ) (permission : String) (app : App) (session : Session)
      (user : UserAccount)
      → IsOut u app.operations
      → require_permission sha256 now permission app session ≡ admitted user
      → user.username ≢ u
  refused u now permission app session user h e same =
      let known = require_permission_lem sha256 now permission app session user e in
      IsBacked-IsOut now u session.token app.operations h
        (subst (λ v. IsBacked sha256 now v session.token app.operations) same known.1.1.1.0)
