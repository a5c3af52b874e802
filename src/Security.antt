-- ===== src/Security.antt =====
-- The local sessions and CSRF tokens of app/api/security.py.
pub mod Sessions
pub mod Csrf
pub mod Cookies
mod Tests
