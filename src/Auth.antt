-- ===== src/Auth.antt =====
-- Authorisation (backend/src/auth and routes/auth.ts): the role guard, the password policy, logins.
pub mod Rbac
pub mod Account
pub mod Login
pub mod Policy
mod Tests
