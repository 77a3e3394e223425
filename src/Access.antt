-- ===== src/Access.antt =====
-- app/identity.py, app/authorization.py, app/security.py, app/user_store.py, app/auth.py and the guarded routes of
-- app/main.py: who may do what.
pub mod Identity
pub mod Security
pub mod Users
pub mod Routes
pub mod Callers
pub mod Guarded
