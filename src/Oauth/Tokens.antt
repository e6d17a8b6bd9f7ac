-- ===== src/Oauth/Tokens.antt =====
-- Codes and tokens: `handleAuthorizationRequest`, `handleTokenRequest`,
-- `handleAuthorizationCodeGrant`, `handleRefreshTokenGrant`, `generateAccessToken`,
-- `generateRefreshToken` and `validateToken` of src/auth/app.oauth.service.ts. A Prisma call that
-- nothing awaits is never sent, so `generateRefreshToken`, which does not await its `create`,
-- stores nothing.
pub mod Grants
use auth_backend.Base.{
  ℕ, String, Bool, true, false, ◌&&◌, not, ◌+◌, Option, none, some, List, [], ◌∷◌, ◌==◌, ltb,
  str_eq, is_none, truthy, if◌then◌else◌,
}
use auth_backend.Base.Text.{concat, join}
use auth_backend.Model.{
  User, OauthClient, AuthorizationCode, OauthToken, AuthorizationRequest, TokenRequest,
}
use auth_backend.Action.{
  Exception, bad_request, type_error, Result, ok, err, Action, pure, gets, or_raise, raise, ◌>>=◌,
  ◌>>◌,
}
use auth_backend.Services.{Services, Claims, oauth_access}
use auth_backend.Store.{
  users_table, authorization_codes_table, oauth_tokens_table, same_code, create_unique, update,
  find_first,
}
use auth_backend.Auth.Session.{user_has_id}
use auth_backend.Oauth.Reply.{Reply, value, response, respond_with}
use auth_backend.Oauth.Scopes.{validate_scopes}
use auth_backend.Oauth.Clients.{validate_client, validate_client_credentials}

pub record TokenReply : Type 0 where
  pub access_token : String
  pub refresh_token : Option String
  pub token_type : String
  pub expires_in : ℕ
  pub scope : String

-- 10 minutes in milliseconds.
abbrev pub ten_minutes : ℕ
ten_minutes = 600000

abbrev pub is_redeemable : ℕ → String → ℕ → AuthorizationCode → Bool
is_redeemable now code client_id c =
    str_eq c.code code && c.client_id == client_id && not c.used && ltb now c.expires_at

abbrev pub is_refreshable : ℕ → String → ℕ → OauthToken → Bool
is_refreshable now token client_id t =
    str_eq t.token token
    && t.client_id == client_id
    && str_eq t.type "refresh_token"
    && is_none t.revoked_at
    && ltb now t.expires_at

module _ (sv : Services) (now : ℕ) where
  abbrev new_code : AuthorizationRequest → ℕ → ℕ → String → ℕ → AuthorizationCode
  new_code r client_id user_id code i = record {
    id = i;
    code = code;
    client_id = client_id;
    user_id = user_id;
    scope = r.scope;
    redirect_uri = r.redirect_uri;
    used = false;
    expires_at = now + ten_minutes;
  }

  -- The address to redirect to; `code` is the random text.
  unfoldable pub handle_authorization_request : AuthorizationRequest → ℕ → String → Action String
  unfolding validate_client validate_scopes
  handle_authorization_request r user_id code = do
    c ← validate_client sv r.client_id r.redirect_uri
    validate_scopes sv r.scope c.allowed_scopes
    create_unique authorization_codes_table same_code (new_code r c.id user_id code)
    pure (concat (r.redirect_uri ∷ "?code=" ∷ code ∷ "&state=" ∷ r.state ∷ []))

  abbrev pub generate_access_token : User → OauthClient → List String → String
  generate_access_token u c scope = sv.sign (oauth_access u.id c.client_id scope) now

  -- `drawn` is the random text.
  abbrev pub generate_refresh_token : User → OauthClient → List String → String → Action String
  generate_refresh_token u c scope drawn = pure drawn

  abbrev pub token_reply : String → Option String → List String → TokenReply
  token_reply access_token refresh_token scope = record {
    access_token = access_token;
    refresh_token = refresh_token;
    token_type = "Bearer";
    expires_in = 3600;
    scope = join " " scope;
  }

  abbrev pub redeem :
      OauthClient → Option AuthorizationCode → String → Action (Reply sv.ServerResponse TokenReply)
  redeem c none drawn = respond_with sv 401 "Invalid authorization code"
  redeem c (some row) drawn = do
    u ← or_raise (← find_first sv users_table (user_has_id row.user_id)) type_error
    update authorization_codes_table (λ d. d.id == row.id) (λ d. record d { used = true })
    refresh_token ← generate_refresh_token u c row.scope drawn
    pure (value (token_reply (generate_access_token u c row.scope) (some refresh_token) row.scope))

  unfoldable pub handle_authorization_code_grant :
      TokenRequest → OauthClient → String → Action (Reply sv.ServerResponse TokenReply)
  handle_authorization_code_grant r c drawn = elim (truthy r.code) [
    | none ↦ respond_with sv 400 "Missing required parameters"
    | some code ↦ do
      row ← find_first sv authorization_codes_table (is_redeemable now code c.id)
      redeem c row drawn
  ]

  abbrev pub refresh_with :
      OauthClient → Option OauthToken → Action (Reply sv.ServerResponse TokenReply)
  refresh_with c none = respond_with sv 401 "Invalid refresh token"
  refresh_with c (some row) = do
    u ← or_raise (← find_first sv users_table (user_has_id row.user_id)) type_error
    pure (value (token_reply (generate_access_token u c row.scope) none row.scope))

  unfoldable pub handle_refresh_token_grant :
      TokenRequest → OauthClient → Action (Reply sv.ServerResponse TokenReply)
  handle_refresh_token_grant r c = elim (truthy r.refresh_token) [
    | none ↦ respond_with sv 400 "Missing required parameters"
    | some token ↦ do
      row ← find_first sv oauth_tokens_table (is_refreshable now token c.id)
      refresh_with c row
  ]

  unfoldable pub handle_token_request :
      TokenRequest → String → Action (Reply sv.ServerResponse TokenReply)
  unfolding validate_client_credentials handle_authorization_code_grant handle_refresh_token_grant
  handle_token_request r drawn = do
    c ← validate_client_credentials sv r.client_id r.client_secret
    if str_eq r.grant_type "authorization_code"
        then handle_authorization_code_grant r c drawn
        else if str_eq r.grant_type "refresh_token"
        then handle_refresh_token_grant r c
        else raise (bad_request "Invalid grant type")

  abbrev pub is_revoked_token : String → OauthToken → Bool
  is_revoked_token token t = str_eq t.token token && not (is_none t.revoked_at)

  -- The `catch`: any exception of the block becomes a response.
  abbrev pub unless_revoked : Claims → Option OauthToken → Action (Reply sv.ServerResponse Claims)
  unless_revoked claims none = pure (value claims)
  unless_revoked claims (some row) = elim (sv.respond 401 "Token has been revoked") [
    | ok r ↦ pure (response r)
    | err e ↦ respond_with sv 401 "Invalid token"
  ]

  unfoldable pub validate_token : Option String → Action (Reply sv.ServerResponse Claims)
  validate_token given = elim (truthy given) [
    | none ↦ respond_with sv 400 "Missing required parameters"
    | some token ↦ elim (sv.verify token now) [
      | none ↦ respond_with sv 401 "Invalid token"
      | some claims ↦ do
        row ← find_first sv oauth_tokens_table (is_revoked_token token)
        unless_revoked claims row
    ]
  ]
