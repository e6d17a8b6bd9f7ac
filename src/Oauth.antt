-- ===== src/Oauth.antt =====
-- `OAuthProviderService` (src/auth/app.oauth.service.ts).
pub mod Reply
pub mod Scopes
pub mod Clients
pub mod Consents
pub mod Tokens
pub mod Run
