-- ===== src/Accounts.antt =====
-- Accounts, sessions and permissions: agent/auth_utils.py, agent/auth_deps.py,
-- agent/auth_router.py and agent/users_router.py. `State` is the database and the libraries that
-- they use, `Tokens` is auth_utils.py, `Guards` auth_deps.py, `Auth` auth_router.py, `Users`
-- and `Rbac` users_router.py.
pub mod State
pub mod Tokens
pub mod Guards
pub mod Calls
pub mod Auth
pub mod Users
pub mod Rbac
pub mod Emails
pub mod Sample
mod Tests
