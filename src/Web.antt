-- ===== src/Web.antt =====
-- app/web/auth.py: who may sign in, and as whom a request acts. The accounts are of app/config.py.
pub mod Limiter
pub mod Accounts
pub mod Session
mod Tests
