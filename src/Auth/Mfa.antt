-- ===== src/Auth/Mfa.antt =====
-- Two-factor authentication: `generateQrCode`, `verifyMfaCode`, `verifyMfa`,
-- `generateNewBackupCodes` and `disableMfa` of src/auth/auth.service.ts, over `MfaService`
-- (src/auth/mfa.service.ts). The random bytes are arguments.
pub mod Codes
pub mod Verify
pub mod Enable
use auth_backend.Base.{
  ℕ, zero, suc, String, Bool, true, false, ◌&&◌, not, ◌+◌, Option, none, some, List, [], ◌∷◌, leb,
  ◌==◌, str_eq, same_text, is_none, truthy, includes, filter, if◌then◌else◌,
}
use auth_backend.Base.Text.{concat, split, join}
use auth_backend.Model.{HttpContext, User, RefreshToken}
use auth_backend.Model.Json.{Json, Fields, null, bool, str, num, obj, end, field}
use auth_backend.Action.{
  Exception, unauthorized, bad_request, type_error, Result, ok, err, Action, pure, gets, or_raise,
  raise_if, lift, ◌>>=◌, ◌>>◌,
}
use auth_backend.Services.{Services}
use auth_backend.Store.{
  users_table, refresh_tokens_table, user_events_table, update, create, find_first,
}
use auth_backend.Auth.Cookie.{save_cookie, expiring, ninety_days}
use auth_backend.Auth.Session.{
  invalid_credentials, is_active_at, user_has_id, access_claims_of, find_user,
}
use auth_backend.Auth.Login.{generate_secure_refresh_token, new_session, email_is}

-- The condition `userAgent: value`, which an undefined value leaves out.
abbrev pub same_agent : Option String → RefreshToken → Bool
same_agent none t = true
same_agent (some agent) t = same_text t.user_agent (some agent)

abbrev pub is_active_here : ℕ → String → Option String → ℕ → RefreshToken → Bool
is_active_here now token agent version t = is_active_at now token version t && same_agent agent t

abbrev pub json_text : Option String → Json
json_text none = null
json_text (some s) = str s

-- `{ email, name, createdAt, … }` of the account.
abbrev pub account_data : User → Fields → Json
account_data u rest = obj (
    field "email" (str u.email)
      (field "name" (json_text u.full_name) (field "createdAt" (num u.created_at) rest)))

abbrev pub log_event : ℕ → String → Json → Action (Unit {0})
log_event user_id event_type payload = do
  create user_events_table
      (λ i. record { id = i; user_id = user_id; event_type = event_type; payload = payload })
  pure tt

-- The first `n` codes of `generateBackupCodes`; `fresh i` is the text of its i-th draw.
abbrev pub draw_codes : (ℕ → String) → ℕ → ℕ → List String
draw_codes fresh i zero = []
draw_codes fresh i (suc n) = fresh i ∷ draw_codes fresh (i + 1) n

unfoldable pub generate_backup_codes : (ℕ → String) → String
unfolding join
generate_backup_codes fresh = join "," (draw_codes fresh 0 10)

abbrev pub external_user : Exception
external_user = bad_request "MFA is not available for external users"

-- `user.backupCodes?.split(',') || []`
abbrev pub codes_of : User → List String
codes_of u = elim u.backup_codes [ none ↦ [] | some codes ↦ split codes ]

abbrev pub without : String → List String → List String
without code codes = filter (λ c. not (str_eq c code)) codes

pub record MfaReply : Type 0 where
  pub access_token : String
  pub refresh_token : String

module _ (sv : Services) (now : ℕ) where
  unfoldable pub generate_qr_code_uri : String → String → String
  generate_qr_code_uri username secret = concat (
      sv.keyuri username "XENSystem" secret
      ∷ "&image=https://auth.erzen.tk/src/content/favicon.svg"
      ∷ [])

  -- The user of the cookie's session, as three of the operations look it up.
  unfoldable pub session_user : HttpContext → Action User
  session_user ctx = do
    token ← or_raise (truthy ctx.refresh_cookie) invalid_credentials
    me ← or_raise ctx.user type_error
    row ←
        or_raise
          (← find_first sv refresh_tokens_table
            (is_active_here now token ctx.user_agent me.token_version))
          invalid_credentials
    or_raise (← find_first sv users_table (user_has_id row.user_id)) invalid_credentials

  -- The image that is sent; `secret` is what `authenticator.generateSecret` draws.
  unfoldable pub generate_qr_code : HttpContext → String → Action String
  unfolding session_user generate_qr_code_uri
  generate_qr_code ctx secret = do
    u ← session_user ctx
    raise_if u.is_two_factor_enabled (bad_request "MFA is already enabled")
    raise_if u.is_external external_user
    update users_table (user_has_id u.id) (λ r. record r { totp_secret = some secret })
    pure (sv.qr_image (generate_qr_code_uri u.email secret))

  unfoldable pub verify_mfa_code : HttpContext → Option String → (ℕ → String) → Action (List String)
  unfolding session_user generate_backup_codes
  verify_mfa_code ctx given fresh = do
    u ← session_user ctx
    code ← or_raise (truthy given) (bad_request "Verification code is required")
    raise_if u.is_external external_user
    valid ← lift (sv.verify_totp code u.totp_secret now)
    raise_if (not valid) (bad_request "Invalid code")
    let codes = generate_backup_codes fresh
    update users_table (user_has_id u.id)
        (λ r. record r { backup_codes = some codes; is_two_factor_enabled = true })
    log_event u.id "mfa.enable" (account_data u end)
    pure (split codes)

  -- Takes the code from the backup codes if it is not valid already; whether one was used.
  unfoldable pub use_backup_code : User → String → Bool → Action Bool
  use_backup_code u code true = pure false
  use_backup_code u code false = do
    raise_if (not (includes (codes_of u) code)) (bad_request "Invalid code")
    update users_table (user_has_id u.id)
        (λ r. record r { backup_codes = some (join "," (without code (codes_of u))) })
    pure true

  unfoldable pub verify_mfa : HttpContext → String → String → String → Action MfaReply
  unfolding use_backup_code save_cookie
  verify_mfa ctx email password code = do
    u ← or_raise (← find_first sv users_table (email_is email)) invalid_credentials
    raise_if u.is_external external_user
    raise_if (not (sv.compare password u.password)) invalid_credentials
    or_raise (truthy u.totp_secret) (bad_request "MFA is not set up")
    valid ← lift (sv.verify_totp code u.totp_secret now)
    used ← use_backup_code u code valid
    let token = generate_secure_refresh_token sv now u
    create refresh_tokens_table (new_session now ctx u.id u.token_version token)
    log_event u.id "mfa.login" (account_data u (field "usedBackupCode" (bool used) end))
    save_cookie sv "refreshToken" token (expiring (now + ninety_days))
    pure (record { access_token = access_claims_of u sv now; refresh_token = token })

  unfoldable pub generate_new_backup_codes : HttpContext → (ℕ → String) → Action (List String)
  unfolding session_user generate_backup_codes
  generate_new_backup_codes ctx fresh = do
    u ← session_user ctx
    raise_if (not u.is_two_factor_enabled) (bad_request "MFA is not enabled")
    let codes = generate_backup_codes fresh
    update users_table (user_has_id u.id) (λ r. record r { backup_codes = some codes })
    pure (split codes)

  unfoldable pub disable_mfa : HttpContext → Action (Unit {0})
  unfolding find_user
  disable_mfa ctx = do
    u ← find_user sv now ctx
    raise_if u.is_external external_user
    update users_table (user_has_id u.id)
        (λ r. record r { is_two_factor_enabled = false; totp_secret = none; backup_codes = none })
