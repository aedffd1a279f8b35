-- ===== src/Access/Roles.antt =====
-- dlpduck/console/rbac.py. A set of roles is the list that `sorted` gives.
use dlpduck.Prelude.{
  String, ◌≡◌, refl, ◌⊎◌, inl, inr, Bool, true, false, Option, none, some, List, [], ◌∷◌, ◌++◌,
  arith, str_eq, is_one_of, if◌then◌else◌, Bool-cases, Option-cases, any_of, All, any_of-append,
}

-- `ALL_ROLES`
abbrev pub all_roles : List String
all_roles = "viewer" ∷ "investigator" ∷ "dlp_admin" ∷ "auditor" ∷ []

abbrev pub dlp_admin : String
dlp_admin = "dlp_admin"

abbrev admins : List String
admins = dlp_admin ∷ []

abbrev investigators : List String
investigators = "investigator" ∷ dlp_admin ∷ []

abbrev auditors : List String
auditors = "auditor" ∷ dlp_admin ∷ []

-- `_MATRIX`
abbrev pub matrix : List (String × List String)
matrix =
    ("jobs.list", all_roles)
    ∷ ("jobs.failed.manage", admins)
    ∷ ("jobs.metadata.read", all_roles)
    ∷ ("dlp.hits.read", "investigator" ∷ dlp_admin ∷ "auditor" ∷ [])
    ∷ ("jobs.text.read", investigators)
    ∷ ("jobs.pdf.read", investigators)
    ∷ ("jobs.pdf.read.quarantined", admins)
    ∷ ("dlp.reveal", admins)
    ∷ ("quarantine.release", admins)
    ∷ ("rules.read", all_roles)
    ∷ ("jobs.reprocess.preview", investigators)
    ∷ ("jobs.reprocess.commit", admins)
    ∷ ("jobs.purge", admins)
    ∷ ("audit.read", auditors)
    ∷ ("audit.verify", auditors)
    ∷ ("access.write", admins)
    ∷ []

-- _MATRIX[permission]
unfoldable pub grantees : String → List (String × List String) → Option (List String)
grantees p [] = none
grantees p ((q, rs) ∷ m) = if str_eq p q then some rs else grantees p m

unfoldable pub any_granted : List String → Option (List String) → Option Bool
unfolding is_one_of
any_granted roles none = none
any_granted roles (some rs) = some (any_of (λ r. is_one_of r rs) roles)

-- `has_permission`, or none where it raises: no such permission.
unfoldable pub has_permission : List String → String → Option Bool
unfolding grantees any_granted
has_permission roles p = any_granted roles (grantees p matrix)

abbrev GrantsAdmin : String × List String → Type 0
GrantsAdmin (p, rs) = is_one_of dlp_admin rs ≡ true

matrix-GrantsAdmin : All GrantsAdmin matrix
unfolding is_one_of
matrix-GrantsAdmin = ground arith

grantees-GrantsAdmin :
    (p : String) (m : List (String × List String)) (rs : List String)
    → All GrantsAdmin m
    → grantees p m ≡ some rs
    → is_one_of dlp_admin rs ≡ true
unfolding grantees
grantees-GrantsAdmin p [] rs h e = ground arith
grantees-GrantsAdmin p ((q, qs) ∷ m) rs h e = elim (Bool-cases (str_eq p q)) [
  | inl same ↦ ground (arith, same, e, h)
  | inr other ↦ grantees-GrantsAdmin p m rs h.1 (ground (arith, other, e))
]

any_granted_lem :
    (roles more rs : List String)
    → is_one_of dlp_admin rs ≡ true
    → (any_granted (dlp_admin ∷ roles) (some rs) ≡ some true)
      × ((any_of (λ r. is_one_of r rs) roles ≡ false)
          ⊎ (any_granted (more ++ roles) (some rs) ≡ some true))
unfolding any_granted
any_granted_lem roles more rs h = ground (arith, h, any_of-append (λ r. is_one_of r rs) more roles)

-- Whoever holds the role of administrator, among others, holds every permission that there is, and
-- more roles never take a permission away.
pub has_permission_lem :
    (roles more : List String) (p : String)
    → (has_permission roles p ≡ none)
      ⊎ ((b : Bool) × ((has_permission roles p ≡ some b)
            × ((has_permission (dlp_admin ∷ roles) p ≡ some true)
                × ((b ≡ false) ⊎ (has_permission (more ++ roles) p ≡ some true)))))
unfolding has_permission any_granted
has_permission_lem roles more p = elim (Option-cases (grantees p matrix)) [
  | inl e ↦ inl (rw e refl)
  | inr (rs, e) ↦
      let granted =
        any_granted_lem roles more rs (grantees-GrantsAdmin p matrix rs matrix-GrantsAdmin e) in
      inr (any_of (λ r. is_one_of r rs) roles, rw e (refl, granted))
]
