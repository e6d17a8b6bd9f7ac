-- ===== src/Auth.antt =====
-- The authentication services of src/auth.
pub mod Cookie
pub mod Session
pub mod Login
pub mod Register
pub mod Mfa
pub mod Password
pub mod Profile
pub mod External
