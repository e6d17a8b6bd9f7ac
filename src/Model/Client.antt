-- ===== src/Model/Client.antt =====
-- The rows of the OAuth provider: the models `OAuthClient`, `AuthorizationCode`, `OAuthToken` and
-- `UserConsent` of prisma/schema.prisma, and the requests of src/auth/models/oauth.model.ts.
use auth_backend.Base.{ℕ, String, Bool, Option, List}

pub record OauthClient : Type 0 where
  pub id : ℕ
  pub user_id : ℕ
  pub client_id : String
  pub client_secret : String
  pub name : String
  pub description : Option String
  pub redirect_uris : List String
  pub allowed_scopes : List String
  pub privacy_policy_url : Option String
  pub terms_of_service_url : Option String
  pub logo_url : Option String

pub record AuthorizationCode : Type 0 where
  pub id : ℕ
  pub code : String
  pub client_id : ℕ
  pub user_id : ℕ
  pub scope : List String
  pub redirect_uri : String
  pub used : Bool
  pub expires_at : ℕ

pub record OauthToken : Type 0 where
  pub id : ℕ
  pub token : String
  pub type : String
  pub client_id : ℕ
  pub user_id : ℕ
  pub scope : List String
  pub expires_at : ℕ
  pub revoked_at : Option ℕ

pub record UserConsent : Type 0 where
  pub id : ℕ
  pub user_id : ℕ
  pub client_id : ℕ
  pub granted_scopes : List String
  pub revoked_at : Option ℕ
  pub created_at : ℕ

-- `Partial<OAuthClientApplication>`: each part may be missing.
pub record OauthClientApplication : Type 0 where
  pub name : Option String
  pub redirect_uris : Option (List String)
  pub allowed_scopes : Option (List String)
  pub privacy_policy_url : Option String
  pub terms_of_service_url : Option String
  pub logo_url : Option String

pub record AuthorizationRequest : Type 0 where
  pub client_id : String
  pub redirect_uri : String
  pub scope : List String
  pub state : String

-- The body comes unvalidated from the wire, so the grant type is any text.
pub record TokenRequest : Type 0 where
  pub grant_type : String
  pub code : Option String
  pub refresh_token : Option String
  pub client_id : Option String
  pub client_secret : Option String
