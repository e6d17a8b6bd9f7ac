-- ===== src/Tests/Clients.antt =====
-- The OAuth provider, the guards and the logins by an external provider.
use auth_backend.Base.{◌≡◌, ◌≢◌, refl, false, any, none, some, [], ◌∷◌, ap}
use auth_backend.Base.Text.{join}
use auth_backend.Model.{Role, AuthorizationCode, AuthorizationRequest, TokenRequest, UserConsent}
use auth_backend.Action.{ok}
use auth_backend.Tests.Fixtures.{services, ann, client, world, only}
use auth_backend.Oauth.Reply.{value}
use auth_backend.Oauth.Consents.{is_live_consent, is_live_token, grant_consent, revoke_access}
use auth_backend.Oauth.Consents.Latest.{revoke_access_clears}
use auth_backend.Oauth.Tokens.{TokenReply, handle_authorization_code_grant}
use auth_backend.Oauth.Run.{stop, next, consents}
use auth_backend.Oauth.Run.Codes.{code_redeemed_once}
use auth_backend.Guards.{authorize}
use auth_backend.Guards.Access.{Authorized, authorize-Authorized}
use auth_backend.Auth.External.{ExternalUser}

abbrev granted : UserConsent
granted = record {
  id = 10;
  user_id = 1;
  client_id = 5;
  granted_scopes = "a" ∷ [];
  revoked_at = none;
  created_at = 100;
}

revoke_access_clears_example :
    let out = revoke_access services 100 1 (some "app") world in
    (out.0 ≡ ok (value tt))
    × (any (is_live_consent 1 5) out.1.user_consents ≡ false)
    × (any (is_live_token 1 5) out.1.oauth_tokens ≡ false)
revoke_access_clears_example =
    revoke_access_clears services 100 1 (some "app") world client "app" refl refl

abbrev code_request : TokenRequest
code_request = record {
  grant_type = "authorization_code";
  code = some "c0de";
  refresh_token = some "oauth";
  client_id = some "app";
  client_secret = some "s3cret";
}

abbrev tokens : TokenReply
tokens = record {
  access_token = "oauth";
  refresh_token = some "drawn";
  token_type = "Bearer";
  expires_in = 3600;
  scope = "";
}

code_redeemed_once_example :
    (handle_authorization_code_grant services 200 code_request client "drawn"
      (grant_consent services 150 1
        (some "app")
        (some [])
        (handle_authorization_code_grant services 100 code_request client "drawn" world).1).1).0
    ≢ ok (value tokens)
unfolding handle_authorization_code_grant join
code_redeemed_once_example =
    code_redeemed_once services 100 200 code_request code_request client client "drawn" "drawn"
      world
      (grant_consent services 150 1 (some "app") (some [])
        (handle_authorization_code_grant services 100 code_request client "drawn" world).1).1
      tokens tokens (λ r s m n e. ap (λ (c : AuthorizationCode). c.id) (only m n)) refl
      (next
        (consents 150 1 (some "app") (some [])
          (handle_authorization_code_grant services 100 code_request client "drawn" world).1)
        (stop _))
      refl

abbrev code_wanted : AuthorizationRequest
code_wanted = record {
  client_id = "app";
  redirect_uri = "https://app";
  scope = "anything" ∷ [];
  state = "state";
}

authorize-Authorized_example : Authorized services 100 Role.admin [] "refresh" world ann
unfolding authorize
authorize-Authorized_example =
    authorize-Authorized services 100 Role.admin [] "refresh" world ann refl

abbrev stranger : ExternalUser
stranger = record {
  external_id = some "42";
  external_provider = some "github";
  email = none;
  full_name = some "Bob";
  picture = none;
}
