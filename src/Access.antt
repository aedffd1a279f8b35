-- ===== src/Access.antt =====
-- Who may use the console: the roles (dlpduck/console/rbac.py), the sessions on disk
-- (dlpduck/operations.py), the accounts and the guard of each page (dlpduck/console/auth.py and
-- csrf.py), and the requests that sign in and out (dlpduck/console/app.py).
pub mod Roles
pub mod Sessions
pub mod Guard
pub mod Csrf
pub mod Events
pub mod Requests
pub mod Entitled
pub mod Revoked
pub mod Keeps
pub mod History
