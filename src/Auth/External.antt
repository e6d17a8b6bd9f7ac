-- ===== src/Auth/External.antt =====
-- Logins by an external provider: `validateOAuthLogin` and `loginWithOAuth` of
-- src/auth/auth.service.ts. A Prisma call that nothing awaits is never sent, so the creation of
-- the new user's refresh token, which is not awaited, changes nothing.
pub mod Sessions
use auth_backend.Base.{
  ℕ, String, Bool, true, false, ◌&&◌, not, ◌+◌, Option, none, some, List, [], ◌∷◌, map, leb, ltb,
  ◌==◌, str_eq, same_text, is_none, includes, text_or, if◌then◌else◌,
}
use auth_backend.Base.Text.{concat, strip_spaces}
use auth_backend.Model.{HttpContext, User, RefreshToken, auth_register, Emitted, new_ip_login}
use auth_backend.Action.{Action, type_error, pure, gets, or_raise, detached, ◌>>=◌, ◌>>◌}
use auth_backend.Services.{Services}
use auth_backend.Store.{
  users_table, refresh_tokens_table, user_logins_table, update, create, create_unique, same_email,
  find_first, find_many, emit,
}
use auth_backend.Privacy.{initialize_default_settings}
use auth_backend.Auth.Cookie.{save_cookie, expiring, ninety_days}
use auth_backend.Auth.Session.{as_used, has_id, user_has_id, access_claims_of}
use auth_backend.Auth.Login.{generate_secure_refresh_token, new_session, new_login, as_seen}
use auth_backend.Auth.Register.{blank_user}

-- src/auth/models/external.user.model.ts, the parts that are read.
pub record ExternalUser : Type 0 where
  pub external_id : Option String
  pub external_provider : Option String
  pub email : Option String
  pub full_name : Option String
  pub picture : Option String

pub record Profile : Type 0 where
  pub id : String
  pub emails : List String
  pub display_name : Option String

-- The condition `{ externalUserId }`, which an undefined value leaves out.
abbrev pub has_external_id : Option String → User → Bool
has_external_id none u = true
has_external_id (some i) u = same_text u.external_user_id (some i)

abbrev pub first_email : List String → Option String
first_email [] = none
first_email (e ∷ _) = some e

-- A value in `a + b` on texts.
abbrev pub shown : Option String → String
shown none = "undefined"
shown (some s) = s

abbrev pub is_reusable_at : ℕ → ℕ → String → RefreshToken → Bool
is_reusable_at now version ip t =
    version == t.token_version
    && ltb now t.expires
    && same_text (some ip) t.created_by_ip
    && is_none t.revoked

abbrev touch_token : ℕ → RefreshToken → Action Bool
touch_token now t = do update refresh_tokens_table (has_id t.id) (as_used now); pure true

-- The loop of `loginWithOAuth`: whether a token of the user is still active at the address.
unfoldable pub touch_active : ℕ → ℕ → String → List RefreshToken → Action Bool
touch_active now version ip [] = pure false
touch_active now version ip (t ∷ ts) =
    if is_reusable_at now version ip t then touch_token now t else touch_active now version ip ts

module _ (sv : Services) (now : ℕ) where
  abbrev external_account : Profile → String → String → String → ℕ → User
  external_account profile provider email hashed i =
      let blank = blank_user now email hashed i in
      record blank {
        full_name = profile.display_name;
        external_user_id = some profile.id;
        external_provider = some provider;
        is_external = true;
      }

  unfoldable pub keep_or_create : Option User → (ℕ → User) → Action User
  keep_or_create (some u) make = pure u
  keep_or_create none make = create_unique users_table same_email make

  -- `drawn` and `salt` are the random password and the salt of its hash.
  unfoldable pub validate_oauth_login : Profile → String → String → String → Action User
  unfolding keep_or_create
  validate_oauth_login profile provider drawn salt = do
    email ← or_raise (first_email profile.emails) type_error
    found ← find_first sv users_table (has_external_id (some profile.id))
    keep_or_create found (external_account profile provider email (sv.hash drawn salt))

  unfoldable pub redirect_url : User → String
  redirect_url u =
      concat
        ("https://auth.erzen.tk/?accessToken=" ∷ access_claims_of u sv now ∷ "&status=success" ∷ [])

  abbrev pub store_unless : Bool → HttpContext → User → String → Action (Unit {0})
  store_unless true ctx u token = pure tt
  store_unless false ctx u token = do
    create refresh_tokens_table (new_session now ctx u.id u.token_version token)
    pure tt

  -- The branch for a user who exists: the address that the browser is sent to.
  unfoldable pub login_existing : HttpContext → User → Action String
  unfolding redirect_url save_cookie touch_active
  login_existing ctx u = do
    let token = generate_secure_refresh_token sv now u
    tokens ← find_many sv refresh_tokens_table (λ t. t.user_id == u.id)
    found ← touch_active now u.token_version ctx.ip tokens
    store_unless found ctx u token
    update users_table (user_has_id u.id) (as_seen now ctx.ip)
    save_cookie sv "refreshToken" token (expiring (now + ninety_days))
    pure (redirect_url u)

  abbrev external_email : ExternalUser → String
  external_email e =
      concat (shown e.external_provider ∷ "." ∷ shown e.external_id ∷ "@erzen.xyz" ∷ [])

  abbrev new_external_user : HttpContext → ExternalUser → String → String → ℕ → User
  new_external_user ctx e hashed full_name i =
      let blank = blank_user now (external_email e) hashed i in
      record blank {
        full_name = some full_name;
        external_user_id = e.external_id;
        external_provider = e.external_provider;
        is_external = true;
        connecting_ip = some ctx.ip;
        profile_picture = e.picture;
        username = some (concat (strip_spaces full_name ∷ shown e.external_id ∷ []));
      }

  abbrev external_mail : HttpContext → ExternalUser → Emitted
  external_mail ctx e =
      new_ip_login e.full_name e.email ctx.ip (text_or ctx.user_agent "Unknown") none

  -- The branch that creates the user.
  unfoldable pub login_new : HttpContext → ExternalUser → String → String → Action String
  unfolding redirect_url save_cookie strip_spaces initialize_default_settings
  login_new ctx e drawn salt = do
    full_name ← or_raise e.full_name type_error
    create_unique users_table same_email (new_external_user ctx e (sv.hash drawn salt) full_name)
    u ← or_raise (← find_first sv users_table (has_external_id e.external_id)) type_error
    let token = generate_secure_refresh_token sv now u
    create user_logins_table (new_login now ctx u.id)
    emit (auth_register e.full_name e.email)
    detached (initialize_default_settings sv u.id)
    logins ← find_many sv user_logins_table (λ l. l.user_id == u.id)
    if not (includes (map (λ l. l.ip) logins) ctx.ip) then emit (external_mail ctx e) else pure tt
    create user_logins_table (new_login now ctx u.id)
    save_cookie sv "refreshToken" token (expiring (now + ninety_days))
    pure (redirect_url u)

  abbrev pub login_found :
      Option User → HttpContext → ExternalUser → String → String → Action String
  login_found (some u) ctx e drawn salt = login_existing ctx u
  login_found none ctx e drawn salt = login_new ctx e drawn salt

  unfoldable pub login_with_oauth : HttpContext → ExternalUser → String → String → Action String
  unfolding login_existing login_new
  login_with_oauth ctx e drawn salt = do
    found ← find_first sv users_table (has_external_id e.external_id)
    login_found found ctx e drawn salt
