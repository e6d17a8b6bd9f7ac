-- ===== src/Auth/Login.antt =====
-- Logging in: `UserLoginHandler` (src/auth/handlers/user-login.handler.ts) and `login` of
-- src/auth/auth.service.ts.
pub mod Run
pub mod Outcomes
pub mod Gate
use auth_backend.Base.{
  ℕ, String, Bool, true, false, ◌&&◌, not, ◌+◌, Option, none, some, List, [], ◌∷◌, map, leb, ltb,
  ◌==◌, str_eq, same_text, is_none, text_or, includes, length, if◌then◌else◌,
}
use auth_backend.Model.{World, HttpContext, User, RefreshToken, UserLogin, Emitted, new_ip_login}
use auth_backend.Action.{Exception, Action, pure, gets, or_raise, raise_if, ◌>>=◌, ◌>>◌}
use auth_backend.Services.{Services, refresh}
use auth_backend.Store.{
  users_table, refresh_tokens_table, user_logins_table, update, create, find_first, find_many, emit,
}
use auth_backend.Privacy.{initialize_default_settings}
use auth_backend.Auth.Cookie.{save_cookie, expiring, ninety_days, fourteen_days}
use auth_backend.Auth.Session.{invalid_credentials, as_used, has_id, user_has_id, access_claims_of}

-- `generateSecureRefreshToken` of the handlers and of the service.
abbrev pub generate_secure_refresh_token : Services → ℕ → User → String
generate_secure_refresh_token sv now u = sv.sign (refresh u.id) now

-- A session row as the handlers create it.
abbrev pub new_session : ℕ → HttpContext → ℕ → ℕ → String → ℕ → RefreshToken
new_session now ctx user_id version token i = record {
  id = i;
  token = token;
  user_id = user_id;
  expires = now + ninety_days;
  token_version = version;
  created = now;
  created_by_ip = some ctx.ip;
  user_agent = some (text_or ctx.user_agent "Unknown");
  device_name = some "Unknown";
  revoked = none;
  revocation_reason = none;
  last_used = none;
}

abbrev pub new_login : ℕ → HttpContext → ℕ → ℕ → UserLogin
new_login now ctx user_id i = record {
  id = i;
  user_id = user_id;
  ip = ctx.ip;
  user_agent = text_or ctx.user_agent "Unknown";
  created_at = now;
}

-- The data `{ lastLogin: now, connectingIp: ip }`.
abbrev pub as_seen : ℕ → String → User → User
as_seen now ip u = record u { last_login = now; connecting_ip = some ip }

abbrev pub email_is : String → User → Bool
email_is email u = str_eq u.email email

-- The test of the loop over the user's refresh tokens.
abbrev pub is_reusable : ℕ → ℕ → String → RefreshToken → Bool
is_reusable now version user_agent t =
    version == t.token_version
    && ltb now t.expires
    && same_text (some user_agent) t.user_agent
    && is_none t.revoked

abbrev take_token : ℕ → RefreshToken → Action (Option String)
take_token now t = do update refresh_tokens_table (has_id t.id) (as_used now); pure (some t.token)

-- The loop: the first token that is still active is marked as used and taken.
unfoldable pub reuse_token : ℕ → ℕ → String → List RefreshToken → Action (Option String)
reuse_token now version user_agent [] = pure none
reuse_token now version user_agent (t ∷ ts) =
    if is_reusable now version user_agent t
    then take_token now t
    else reuse_token now version user_agent ts

pub data LoginReply : Type 0 where
  mfa_required : LoginReply
  logged_in : String → String → LoginReply

module _ (sv : Services) (now : ℕ) (ctx : HttpContext) where
  -- The token of the session: the one that was found, or a new one, which is stored.
  unfoldable pub session_token : User → Option String → Action String
  session_token u (some token) = pure token
  session_token u none = do
    let token = generate_secure_refresh_token sv now u
    create refresh_tokens_table (new_session now ctx u.id u.token_version token)
    pure token

  abbrev new_ip_mail : User → Emitted
  new_ip_mail u =
      new_ip_login u.full_name (some u.email) ctx.ip (text_or ctx.user_agent "Unknown") (some now)

  -- The mail about a new address, and the row of the login.
  unfoldable pub record_login : User → Action (Unit {0})
  record_login u = do
    logins ← find_many sv user_logins_table (λ l. l.user_id == u.id)
    if not (includes (map (λ l. l.ip) logins) ctx.ip) then emit (new_ip_mail u) else pure tt
    create user_logins_table (new_login now ctx u.id)
    pure tt

  -- `UserLoginHandler.execute`: the user as it was read, and the refresh token.
  unfoldable pub user_login : String → String → Action (User × String)
  user_login email password = do
    u ← or_raise (← find_first sv users_table (email_is email)) invalid_credentials
    raise_if (not (sv.compare password u.password)) invalid_credentials
    tokens ← find_many sv refresh_tokens_table (λ t. t.user_id == u.id)
    found ← reuse_token now u.token_version (text_or ctx.user_agent "Unknown") tokens
    token ← session_token u found
    update users_table (user_has_id u.id) (as_seen now ctx.ip)
    record_login u
    pure (u, token)

  -- A login of the user from this address in the last two weeks.
  abbrev pub is_recent_login : ℕ → UserLogin → Bool
  is_recent_login user_id l =
      l.user_id == user_id && str_eq l.ip ctx.ip && leb now (l.created_at + fourteen_days)

  unfoldable pub grant_session : User → String → Action LoginReply
  unfolding save_cookie initialize_default_settings
  grant_session u token = do
    save_cookie sv "refreshToken" token (expiring (now + ninety_days))
    initialize_default_settings sv u.id
    pure (logged_in (access_claims_of u sv now) token)

  -- With two factors enabled: a code is asked for unless the address is known.
  abbrev pub check_address : User → String → Action LoginReply
  check_address u token = do
    logins ← find_many sv user_logins_table (is_recent_login u.id)
    if leb (length logins) 1 then pure mfa_required else grant_session u token

  -- What `login` does once the handler has returned.
  unfoldable pub finish_login : User → String → Action LoginReply
  unfolding grant_session
  finish_login u token =
      if u.is_two_factor_enabled then check_address u token else grant_session u token

  unfoldable pub login : String → String → Action LoginReply
  unfolding user_login finish_login
  login email password = do (u, token) ← user_login email password; finish_login u token
