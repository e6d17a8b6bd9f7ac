-- ===== src/Oauth/Consents.antt =====
-- Consents: `getUserConsent`, `grantConsent`, `revokeAccess` and `listUserApplications` of
-- src/auth/app.oauth.service.ts.
pub mod Latest
use auth_backend.Base.{
  ℕ, String, Bool, true, false, ◌&&◌, not, Option, none, some, List, [], ◌∷◌, map, ◌==◌, str_eq,
  is_none, includes, all, truthy, if◌then◌else◌,
}
use auth_backend.Model.{HttpContext, OauthClient, UserConsent, OauthToken}
use auth_backend.Action.{Action, type_error, pure, gets, or_raise, ◌>>=◌, ◌>>◌}
use auth_backend.Services.{Services}
use auth_backend.Store.{
  oauth_clients_table, user_consents_table, oauth_tokens_table, create, update_many, find_first,
  find_many,
}
use auth_backend.Oauth.Reply.{Reply, value, response, respond_with}
use auth_backend.Oauth.Scopes.{description_of}
use auth_backend.Oauth.Clients.{client_id_is}

-- The condition `{ userId, clientId, revokedAt: null }` on consents and on tokens.
abbrev pub is_live_consent : ℕ → ℕ → UserConsent → Bool
is_live_consent user_id client_id c =
    c.user_id == user_id && c.client_id == client_id && is_none c.revoked_at

abbrev pub is_live_token : ℕ → ℕ → OauthToken → Bool
is_live_token user_id client_id t =
    t.user_id == user_id && t.client_id == client_id && is_none t.revoked_at

pub record ConsentScreen : Type 0 where
  pub application_name : String
  pub requested_scopes : List (String × Option String)
  pub privacy_policy_url : Option String
  pub terms_of_service_url : Option String
  pub logo_url : Option String

pub data ConsentReply : Type 0 where
  existing : UserConsent → ConsentReply
  screen : ConsentScreen → ConsentReply

pub record Grant : Type 0 where
  pub application_name : String
  pub description : Option String
  pub logo_url : Option String
  pub client_id : String
  pub granted_scopes : List String
  pub granted_at : ℕ

abbrev screen_of : OauthClient → List String → ConsentScreen
screen_of c requested = record {
  application_name = c.name;
  requested_scopes = map (λ s. (s, description_of s)) requested;
  privacy_policy_url = c.privacy_policy_url;
  terms_of_service_url = c.terms_of_service_url;
  logo_url = c.logo_url;
}

-- The existing consent if it covers the request, and else the screen.
abbrev pub consent_reply : Option UserConsent → OauthClient → List String → ConsentReply
consent_reply none c requested = screen (screen_of c requested)
consent_reply (some consent) c requested =
    if all (λ s. includes consent.granted_scopes s) requested
    then existing consent
    else screen (screen_of c requested)

abbrev grant_of : UserConsent → OauthClient → Grant
grant_of consent c = record {
  application_name = c.name;
  description = c.description;
  logo_url = c.logo_url;
  client_id = c.client_id;
  granted_scopes = consent.granted_scopes;
  granted_at = consent.created_at;
}

module _ (sv : Services) (now : ℕ) where
  unfoldable pub get_user_consent : ℕ → String → List String → Action ConsentReply
  get_user_consent user_id client_id requested = do
    c ← or_raise (← find_first sv oauth_clients_table (client_id_is client_id)) type_error
    consent ← find_first sv user_consents_table (is_live_consent user_id c.id)
    pure (consent_reply consent c requested)

  abbrev pub revoke_consents : ℕ → ℕ → Action (Unit {0})
  revoke_consents user_id client_id =
      update_many user_consents_table (is_live_consent user_id client_id)
        (λ c. record c { revoked_at = some now })

  abbrev pub new_consent : ℕ → ℕ → List String → ℕ → UserConsent
  new_consent user_id client_id scopes i = record {
    id = i;
    user_id = user_id;
    client_id = client_id;
    granted_scopes = scopes;
    revoked_at = none;
    created_at = now;
  }

  -- With both parameters there: the client is looked up and the consents are written.
  abbrev pub consent_to :
      ℕ → Option OauthClient → List String → Action (Reply sv.ServerResponse UserConsent)
  consent_to user_id none scopes = respond_with sv 404 "Client not found"
  consent_to user_id (some c) scopes = do
    revoke_consents user_id c.id
    consent ← create user_consents_table (new_consent user_id c.id scopes)
    pure (value consent)

  unfoldable pub grant_consent :
      ℕ → Option String → Option (List String) → Action (Reply sv.ServerResponse UserConsent)
  grant_consent user_id client_id scopes = elim (truthy client_id) [
    | none ↦ respond_with sv 400 "Missing required parameters"
    | some cid ↦ elim scopes [
      | none ↦ respond_with sv 400 "Missing required parameters"
      | some ss ↦ do
        c ← find_first sv oauth_clients_table (client_id_is cid)
        consent_to user_id c ss
    ]
  ]

  abbrev pub revoke_for : ℕ → Option OauthClient → Action (Reply sv.ServerResponse (Unit {0}))
  revoke_for user_id none = respond_with sv 404 "Client not found"
  revoke_for user_id (some c) = do
    revoke_consents user_id c.id
    update_many oauth_tokens_table (is_live_token user_id c.id)
        (λ t. record t { revoked_at = some now })
    pure (value tt)

  unfoldable pub revoke_access : ℕ → Option String → Action (Reply sv.ServerResponse (Unit {0}))
  revoke_access user_id client_id = elim (truthy client_id) [
    | none ↦ respond_with sv 400 "Missing required parameters"
    | some cid ↦ do c ← find_first sv oauth_clients_table (client_id_is cid); revoke_for user_id c
  ]

  -- Each consent with its client, which the foreign key provides.
  grants_of : List UserConsent → Action (List Grant)
  grants_of [] = pure []
  grants_of (consent ∷ rest) = do
    c ← or_raise (← find_first sv oauth_clients_table (λ d. d.id == consent.client_id)) type_error
    gs ← grants_of rest
    pure (grant_of consent c ∷ gs)

  unfoldable pub list_user_applications : HttpContext → Action (List Grant)
  unfolding grants_of
  list_user_applications ctx = do
    me ← or_raise ctx.user type_error
    consents ← find_many sv user_consents_table (λ c. c.user_id == me.id && is_none c.revoked_at)
    grants_of consents
