-- ===== src/Oauth/Clients.antt =====
-- The client applications: `registerApplication`, `getUserApplications`, `editUserApplication`,
-- `validateClient`, `validateClientCredentials` and `rotateClientSecret` of
-- src/auth/app.oauth.service.ts. Random texts and salts are arguments.
pub mod Secrets
use auth_backend.Base.{
  ℕ, String, Bool, true, false, ◌&&◌, not, Option, none, some, List, [], ◌∷◌, ◌==◌, str_eq,
  includes, any, truthy, if◌then◌else◌,
}
use auth_backend.Model.{HttpContext, OauthClient, OauthClientApplication}
use auth_backend.Action.{
  Exception, unauthorized, plain_error, type_error, Action, pure, gets, or_raise, raise, raise_if,
  ◌>>=◌, ◌>>◌,
}
use auth_backend.Services.{Services}
use auth_backend.Store.{
  oauth_clients_table, same_client, create_unique, update, find_first, find_many,
}

pub record Credentials : Type 0 where
  pub client_id : String
  pub client_secret : String

-- `a || b` on a text that may be missing and a stored one, and on lists.
abbrev pub text_or_kept : Option String → Option String → Option String
text_or_kept given kept = elim (truthy given) [ none ↦ kept | some s ↦ some s ]

abbrev pub list_or {ℓ} : {A : Type ℓ} → Option A → A → A
list_or none kept = kept
list_or (some xs) kept = xs

abbrev pub client_id_is : String → OauthClient → Bool
client_id_is client_id c = str_eq c.client_id client_id

abbrev pub client_is_of : String → ℕ → OauthClient → Bool
client_is_of client_id user_id c = str_eq c.client_id client_id && c.user_id == user_id

-- `redirectUris: { hasSome: [uri] }`
abbrev pub client_redirects_to : String → String → OauthClient → Bool
client_redirects_to client_id uri c = str_eq c.client_id client_id && includes c.redirect_uris uri

-- A promise is an object, and so truthy, whatever it comes to.
abbrev promise_truthy : Bool → Bool
promise_truthy _ = true

abbrev pub invalid_client : Exception
invalid_client = unauthorized "Invalid client"

abbrev redirects_or_raise : Option OauthClient → String → Action OauthClient
redirects_or_raise none uri = raise (unauthorized "Invalid client or redirect URI")
redirects_or_raise (some c) uri = do
  raise_if (not (includes c.redirect_uris uri)) (unauthorized "Invalid client or redirect URI")
  pure c

abbrev edited : OauthClientApplication → OauthClient → OauthClient → OauthClient
edited a old c = record c {
  name = (elim (truthy a.name) [ none ↦ old.name | some s ↦ s ]);
  redirect_uris = list_or a.redirect_uris old.redirect_uris;
  allowed_scopes = list_or a.allowed_scopes old.allowed_scopes;
  privacy_policy_url = text_or_kept a.privacy_policy_url old.privacy_policy_url;
  terms_of_service_url = text_or_kept a.terms_of_service_url old.terms_of_service_url;
  logo_url = text_or_kept a.logo_url old.logo_url;
}

abbrev new_client : ℕ → String → String → String → OauthClientApplication → ℕ → OauthClient
new_client user_id client_id hashed name a i = record {
  id = i;
  user_id = user_id;
  client_id = client_id;
  client_secret = hashed;
  name = name;
  description = none;
  redirect_uris = list_or a.redirect_uris [];
  allowed_scopes = list_or a.allowed_scopes [];
  privacy_policy_url = a.privacy_policy_url;
  terms_of_service_url = a.terms_of_service_url;
  logo_url = a.logo_url;
}

module _ (sv : Services) where
  -- Prisma refuses a missing `name`.
  unfoldable pub register_application :
      HttpContext → OauthClientApplication → String → String → String → Action Credentials
  register_application ctx a client_id secret salt = do
    me ← or_raise ctx.user type_error
    name ← or_raise a.name (plain_error "Argument `name` is missing.")
    c ←
        create_unique oauth_clients_table same_client
          (new_client me.id client_id (sv.hash secret salt) name a)
    pure (record { client_id = c.client_id; client_secret = secret })

  unfoldable pub get_user_applications : HttpContext → Action (List OauthClient)
  get_user_applications ctx = do
    me ← or_raise ctx.user type_error
    find_many sv oauth_clients_table (λ c. c.user_id == me.id)

  unfoldable pub edit_user_application :
      HttpContext → String → OauthClientApplication → Action (Unit {0})
  edit_user_application ctx application_id a = do
    me ← or_raise ctx.user type_error
    old ←
        or_raise (← find_first sv oauth_clients_table (client_is_of application_id me.id))
          (plain_error "Application not found")
    raise_if (not (old.user_id == me.id))
        (plain_error "You do not have permission to edit this application")
    update oauth_clients_table (client_is_of application_id me.id) (edited a old)

  unfoldable pub validate_client : String → String → Action OauthClient
  validate_client client_id uri = do
    c ← find_first sv oauth_clients_table (client_redirects_to client_id uri)
    redirects_or_raise c uri

  unfoldable pub validate_client_credentials : Option String → Option String → Action OauthClient
  validate_client_credentials given_id given_secret = do
    client_id ← or_raise (truthy given_id) (unauthorized "Missing client credentials")
    secret ← or_raise (truthy given_secret) (unauthorized "Missing client credentials")
    c ← or_raise (← find_first sv oauth_clients_table (client_id_is client_id)) invalid_client
    let is_valid = promise_truthy (sv.compare secret c.client_secret)
    raise_if (not is_valid) (unauthorized "Invalid client credentials")
    pure c

  unfoldable pub rotate_client_secret :
      Option String → Option String → String → String → Action (Option String × String)
  unfolding validate_client_credentials
  rotate_client_secret client_id current_secret new_secret salt = do
    c ← validate_client_credentials client_id current_secret
    update oauth_clients_table (λ d. d.id == c.id)
        (λ d. record d { client_secret = sv.hash new_secret salt })
    pure (client_id, new_secret)
