-- ===== src/Auth/Session.antt =====
-- Sessions: the handlers of src/auth/handlers/user-refresh-token.handler.ts,
-- user-logout.handler.ts and get-user-info.handler.ts, and `refresh`, `logout`, `info`,
-- `revokeToken`, `findUser`, `getUserSessionStatus`, `getAliveSessions` and `getUserEvents` of
-- src/auth/auth.service.ts. A session is a row of the table of refresh tokens.
pub mod Logout
pub mod Revoked
pub mod Versions
use auth_backend.Base.{
  ℕ, String, Bool, true, false, ◌&&◌, Option, none, some, List, ◌∷◌, leb, ◌==◌, str_eq, is_none,
  truthy, if◌then◌else◌,
}
use auth_backend.Model.{
  World, HttpContext, User, Role, RefreshToken, UserEvent, Emitted, captured, ip_location_job,
}
use auth_backend.Model.Json.{Json, str, num, obj, end, field}
use auth_backend.Action.{
  Exception, unauthorized, type_error, Result, ok, err, Action, pure, raise, gets, or_raise,
  raise_if, ◌>>=◌, ◌>>◌,
}
use auth_backend.Services.{Services, access}
use auth_backend.Store.{
  users_table, refresh_tokens_table, user_events_table, update, create, find_first, find_many, emit,
}

pub record SessionStatus : Type 0 where
  pub expires : ℕ
  pub valid : Bool

-- What `info` returns of the account.
pub record UserInfo : Type 0 where
  pub id : ℕ
  pub name : Option String
  pub username : Option String
  pub email : String
  pub role : Role
  pub last_login : ℕ
  pub multifactor_enabled : Bool
  pub email_verified : Bool
  pub external_user : Bool
  pub birthdate : Option String
  pub language : Option String
  pub timezone : Option String
  pub image : Option String

abbrev pub invalid_credentials : Exception
invalid_credentials = unauthorized "Invalid credentials"

-- The condition `{ token, expires: { gte: now }, revoked: null }`.
abbrev pub is_active : ℕ → String → RefreshToken → Bool
is_active now token t = str_eq t.token token && leb now t.expires && is_none t.revoked

-- The same with `tokenVersion`.
abbrev pub is_active_at : ℕ → String → ℕ → RefreshToken → Bool
is_active_at now token version t = is_active now token t && t.token_version == version

abbrev pub has_id : ℕ → RefreshToken → Bool
has_id i t = t.id == i

-- The data of the two updates that revoke a row.
abbrev pub as_revoked : ℕ → String → RefreshToken → RefreshToken
as_revoked now reason t = record t { revoked = some now; revocation_reason = some reason }

-- The data `{ lastUsed: now }`.
abbrev pub as_used : ℕ → RefreshToken → RefreshToken
as_used now t = record t { last_used = some now }

abbrev pub user_has_id : ℕ → User → Bool
user_has_id i u = u.id == i

abbrev pub access_claims_of : User → Services → ℕ → String
access_claims_of u sv now = sv.sign (access u.id u.email u.role) now

module _ (sv : Services) (now : ℕ) where
  -- `UserRefreshTokenHandler.execute`: the new access token.
  unfoldable pub refresh_token : Option String → Action String
  refresh_token cookie = do
    token ← or_raise (truthy cookie) invalid_credentials
    row ← or_raise (← find_first sv refresh_tokens_table (is_active now token)) invalid_credentials
    u ← or_raise (← find_first sv users_table (user_has_id row.user_id)) invalid_credentials
    update refresh_tokens_table (has_id row.id) (as_used now)
    emit (captured u.id "user_refresh_token")
    pure (access_claims_of u sv now)

  -- `refresh`: the cookie, or else the token of the body.
  unfoldable pub refresh : HttpContext → Option String → Action String
  unfolding refresh_token
  refresh ctx token_param =
      refresh_token (elim (truthy ctx.refresh_cookie) [ none ↦ token_param | some t ↦ some t ])

  -- `UserLogoutHandler.execute`, at the cookie of `logout`.
  unfoldable pub logout : HttpContext → Action (Unit {0})
  logout ctx = do
    token ← or_raise (truthy ctx.refresh_cookie) invalid_credentials
    row ← or_raise (← find_first sv refresh_tokens_table (is_active now token)) invalid_credentials
    update refresh_tokens_table (has_id row.id) (as_revoked now "User logged out")

  -- The condition of `revokeToken`: an expired row may be revoked too.
  abbrev pub revocable : String → ℕ → RefreshToken → Bool
  revocable token user_id t = str_eq t.token token && t.user_id == user_id && is_none t.revoked

  unfoldable pub revoke_token : HttpContext → String → Action (Unit {0})
  revoke_token ctx token = do
    me ← or_raise ctx.user type_error
    row ←
        or_raise (← find_first sv refresh_tokens_table (revocable token me.id))
          (unauthorized "Invalid token")
    update refresh_tokens_table (has_id row.id) (as_revoked now "Token revoked by user")
    create user_events_table (λ i. record {
      id = i;
      user_id = row.user_id;
      event_type = "auth.token.revoke";
      payload = obj (field "token" (str row.token) (field "createdAt" (num now) end));
    })
    pure tt

  unfoldable pub find_user : HttpContext → Action User
  find_user ctx = do
    token ← or_raise (truthy ctx.refresh_cookie) invalid_credentials
    me ← or_raise ctx.user type_error
    row ←
        or_raise (← find_first sv refresh_tokens_table (is_active_at now token me.token_version))
          invalid_credentials
    or_raise (← find_first sv users_table (user_has_id row.user_id)) invalid_credentials

  abbrev pub no_session : SessionStatus
  no_session = record { expires = now; valid = false }

  -- The last test of `getUserSessionStatus`, on the row that was found and its user.
  abbrev pub status_of : RefreshToken → Option User → SessionStatus
  status_of row none = no_session
  status_of row (some u) =
      if u.token_version == row.token_version
      then record { expires = row.expires; valid = true }
      else no_session

  abbrev pub row_status : Option RefreshToken → Action SessionStatus
  row_status none = pure no_session
  row_status (some row) = do
    u ← find_first sv users_table (user_has_id row.user_id)
    pure (status_of row u)

  unfoldable pub get_user_session_status : HttpContext → Action SessionStatus
  get_user_session_status ctx = elim (truthy ctx.refresh_cookie) [
    | none ↦ pure no_session
    | some token ↦ do row ← find_first sv refresh_tokens_table (is_active now token); row_status row
  ]

  -- The condition of `getAliveSessions`.
  abbrev pub is_alive : ℕ → ℕ → RefreshToken → Bool
  is_alive user_id version t =
      t.user_id == user_id && leb now t.expires && is_none t.revoked && t.token_version == version

  unfoldable pub get_alive_sessions : HttpContext → Action (List RefreshToken)
  unfolding find_user
  get_alive_sessions ctx = do
    u ← find_user ctx
    find_many sv refresh_tokens_table (is_alive u.id u.token_version)

  unfoldable pub get_user_events : HttpContext → Action (List UserEvent)
  unfolding find_user
  get_user_events ctx = do
    u ← find_user ctx
    find_many sv user_events_table (λ e. e.user_id == u.id)

  -- `GetUserInfoHandler.execute`.
  unfoldable pub get_user_info : Option String → Action UserInfo
  get_user_info cookie = do
    token ← or_raise (truthy cookie) invalid_credentials
    row ← or_raise (← find_first sv refresh_tokens_table (is_active now token)) invalid_credentials
    u ← or_raise (← find_first sv users_table (user_has_id row.user_id)) invalid_credentials
    raise_if (if u.token_version == row.token_version then false else true) invalid_credentials
    emit (captured u.id "user_info_retrieved")
    pure (record {
      id = u.id;
      name = u.full_name;
      username = u.username;
      email = u.email;
      role = u.role;
      last_login = u.last_login;
      multifactor_enabled = u.is_two_factor_enabled;
      email_verified = u.is_email_verified;
      external_user = u.is_external;
      birthdate = u.birthdate;
      language = u.language;
      timezone = u.time_zone;
      image = u.profile_picture;
    })

  -- `info`: the location job is queued first.
  unfoldable pub info : HttpContext → Action UserInfo
  unfolding get_user_info
  info ctx = do
    emit (ip_location_job ctx.cf_connecting_ip ctx.cf_ipcountry ctx.ip)
    get_user_info ctx.refresh_cookie
