-- ===== src/Oauth/Run.antt =====
-- Runs of requests to the OAuth provider (src/auth/oauth.controller.ts and
-- src/auth/app.oauth.service.ts), in any order and at any times.
pub mod Writes
pub mod Codes
use auth_backend.Base.{ℕ, String, Option, List, some}
use auth_backend.Model.{
  World, HttpContext, OauthClientApplication, AuthorizationRequest, TokenRequest,
}
use auth_backend.Services.{Services}
use auth_backend.Oauth.Clients.{register_application, edit_user_application, rotate_client_secret}
use auth_backend.Oauth.Consents.{grant_consent, revoke_access}
use auth_backend.Oauth.Tokens.{handle_authorization_request, handle_token_request}

-- One request: each operation of the provider that writes, at any arguments.
pub data Step (sv : Services) : World → World → Type 0 where
  asks :
      (now : ℕ) (r : AuthorizationRequest) (user_id : ℕ) (code : String) (w : World)
      → Step sv w (handle_authorization_request sv now r user_id code w).1
  redeems :
      (now : ℕ) (r : TokenRequest) (drawn : String) (w : World)
      → Step sv w (handle_token_request sv now r drawn w).1
  consents :
      (now user_id : ℕ) (client_id : Option String) (scopes : Option (List String)) (w : World)
      → Step sv w (grant_consent sv now user_id client_id scopes w).1
  withdraws :
      (now user_id : ℕ) (client_id : Option String) (w : World)
      → Step sv w (revoke_access sv now user_id client_id w).1
  registers :
      (ctx : HttpContext) (a : OauthClientApplication) (client_id secret salt : String) (w : World)
      → Step sv w (register_application sv ctx a client_id secret salt w).1
  edits :
      (ctx : HttpContext) (application_id : String) (a : OauthClientApplication) (w : World)
      → Step sv w (edit_user_application sv ctx application_id a w).1
  rotates :
      (client_id current : Option String) (secret salt : String) (w : World)
      → Step sv w (rotate_client_secret sv client_id current secret salt w).1

-- Any number of requests, one after the other.
pub data Run (sv : Services) : World → World → Type 0 where
  stop : (w : World) → Run sv w w
  next : {w v u : World} → Step sv w v → Run sv v u → Run sv w u
