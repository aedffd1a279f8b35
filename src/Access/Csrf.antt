-- ===== src/Access/Csrf.antt =====
-- dlpduck/console/csrf.py: the token of a form.
use dlpduck.Prelude.{
  String, ◌≡◌, ◌≢◌, inl, inr, Bool, true, false, not, ◌&&◌, Option, none, some, arith, str_eq,
  eq_iff, if◌then◌else◌, Bool-cases, Option-cases,
}
use dlpduck.Access.Guard.{Session}

-- `verify_csrf`: whether it lets the form through.
unfoldable pub verify_csrf : Option String → String → Bool
verify_csrf none submitted = false
verify_csrf (some expected) submitted = not (str_eq expected "") && str_eq expected submitted

abbrev issued : String → Session → Option String → String × Session
issued fresh session none = (fresh, record session { csrf_token = some fresh })
issued fresh session (some t) =
    if str_eq t "" then (fresh, record session { csrf_token = some fresh }) else (t, session)

-- `get_csrf_token`: the token of the session, or the one that `secrets` gives, which the session
-- then has.
unfoldable pub get_csrf_token : String → Session → String × Session
get_csrf_token fresh session = issued fresh session session.csrf_token

-- The token of a form that was rendered passes when the form comes back with it.
pub verify_csrf-get_csrf_token :
    (fresh : String) (session : Session)
    → fresh ≢ ""
    → verify_csrf (get_csrf_token fresh session).1.csrf_token (get_csrf_token fresh session).0
      ≡ true
unfolding get_csrf_token verify_csrf
verify_csrf-get_csrf_token fresh session h = elim (Option-cases session.csrf_token) [
  | inl e ↦ rw e (ground (arith, h, eq_iff fresh "", eq_iff fresh fresh))
  | inr (t, e) ↦ elim (Bool-cases (str_eq t "")) [
    | inl blank ↦ rw (e, blank) (ground (arith, h, eq_iff fresh "", eq_iff fresh fresh))
    | inr full ↦ rw (e, full) (ground (arith, e, full, eq_iff t t))
  ]
]
