-- ===== src/Access/Sessions.antt =====
-- The sessions of `OperationalStore` (dlpduck/operations.py). A time is a number of seconds.
use dlpduck.Prelude.{
  ℕ, String, Bool, false, not, ◌&&◌, Option, none, some, List, [], ◌∷◌, str_eq, ltb, leb,
  if◌then◌else◌, keep_if, any_of,
}

-- The JSON of a session file.
pub record Stored : Type 0 where
  pub username : Option String
  pub expires : Option ℕ

-- sessions_root: each file's name, and what `_read_json` makes of it.
abbrev pub SessionFiles : Type 0
SessionFiles = List (String × Option Stored)

-- `_read_json`
unfoldable pub read_json : String → SessionFiles → Option Stored
read_json name [] = none
read_json name ((f, r) ∷ fs) = if str_eq name f then r else read_json name fs

abbrev pub unlink : String → SessionFiles → SessionFiles
unlink name fs = keep_if (λ f. not (str_eq name f.0)) fs

-- record.get("expires", 0)
abbrev pub expiry : Option ℕ → ℕ
expiry none = 0
expiry (some t) = t

-- record.get("username") == username
abbrev pub is_name : String → Option String → Bool
is_name u none = false
is_name u (some v) = str_eq u v

abbrev pub is_fresh : ℕ → Option Stored → Bool
is_fresh now none = false
is_fresh now (some r) = leb now (expiry r.expires)

-- `_prune_expired_sessions`
unfoldable pub prune_expired_sessions : ℕ → SessionFiles → SessionFiles
prune_expired_sessions now fs = keep_if (λ f. is_fresh now f.1) fs

abbrev pub belongs_to : String → Option Stored → Bool
belongs_to u none = false
belongs_to u (some r) = is_name u r.username

abbrev pub is_active : ℕ → String → Option Stored → Bool
is_active now u none = false
is_active now u (some r) = is_name u r.username && ltb now (expiry r.expires)

abbrev pub is_truthy : Option String → Bool
is_truthy none = false
is_truthy (some s) = not (str_eq s "")

abbrev pub revoke_user : Option String → SessionFiles → SessionFiles
revoke_user none fs = fs
revoke_user (some u) fs = if str_eq u "" then fs else keep_if (λ f. not (belongs_to u f.1)) fs

module _ (sha256 : String → String) where
  -- `create_session`. The write replaces a file of that name.
  unfoldable pub create_session : ℕ → String → String → ℕ → SessionFiles → SessionFiles
  unfolding prune_expired_sessions
  create_session now token u expires fs =
      (sha256 token, some (record { username = some u; expires = some expires }))
      ∷ unlink (sha256 token) (prune_expired_sessions now fs)

  -- `session_active`
  unfoldable pub session_active : ℕ → String → String → SessionFiles → Bool
  unfolding read_json
  session_active now token u fs = is_active now u (read_json (sha256 token) fs)

  -- `revoke`, of a token where one is given, else of a user
  unfoldable pub revoke : Option String → Option String → SessionFiles → SessionFiles
  revoke none user fs = revoke_user user fs
  revoke (some token) user fs =
      if str_eq token "" then revoke_user user fs else unlink (sha256 token) fs

-- Some session file that can be read is of the user.
abbrev pub is_held : String → SessionFiles → Bool
is_held u fs = any_of (λ f. belongs_to u f.1) fs
