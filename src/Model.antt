-- ===== src/Model.antt =====
-- The state that the handlers read and write: the tables of the database
-- (prisma/schema.prisma), the events emitted and the cookies set so far, and the tables and the
-- cache of the messaging part, the tables of agents and of the assistant; and the request context
-- of src/auth/models/http.model.ts.
pub mod Json
mod Account
mod Client
mod Effects
mod Messages
pub mod Agents
pub mod Ai
pub use Account.*
pub use Client.*
pub use Effects.*
pub use Messages.*
use Agents.{AgentTables}
use Ai.{AiTables}
use auth_backend.Base.{ℕ, String, Option, List}

-- A row is one element of its table. `next_id` is the id that the next row gets.
pub record World : Type 0 where
  pub users : List User
  pub refresh_tokens : List RefreshToken
  pub user_logins : List UserLogin
  pub user_events : List UserEvent
  pub password_resets : List PasswordReset
  pub privacy_settings : List PrivacySettings
  pub oauth_clients : List OauthClient
  pub authorization_codes : List AuthorizationCode
  pub oauth_tokens : List OauthToken
  pub user_consents : List UserConsent
  pub next_id : ℕ
  pub emitted : List Emitted
  pub cookies : List Cookie
  pub chat : Chat
  pub agents : AgentTables
  pub ai : AiTables

-- What the handlers read of the request: the `refreshToken` cookie, the headers `user-agent`,
-- `cf-connecting-ip` and `cf-ipcountry`, the client's address and the user that the JWT guard
-- attached.
pub record HttpContext : Type 0 where
  pub refresh_cookie : Option String
  pub user_agent : Option String
  pub cf_connecting_ip : Option String
  pub cf_ipcountry : Option String
  pub ip : String
  pub user : Option User
