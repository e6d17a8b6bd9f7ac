-- ===== src/Auth/Password.antt =====
-- Passwords: `forgotPassword`, `resetPassword` and `changePassword` of src/auth/auth.service.ts.
pub mod Forgot
pub mod Reset
pub mod Change
use auth_backend.Base.{
  ℕ, String, Bool, true, false, ◌&&◌, not, ◌+◌, Option, none, some, leb, ◌==◌, str_eq, is_none,
  if◌then◌else◌,
}
use auth_backend.Model.{HttpContext, User, PasswordReset, auth_forgot, auth_forgot_reset}
use auth_backend.Model.Json.{end}
use auth_backend.Action.{
  Exception, unauthorized, bad_request, Action, pure, gets, or_raise, raise_if, ◌>>=◌, ◌>>◌,
}
use auth_backend.Services.{Services, reset_password as reset_claims}
use auth_backend.Store.{
  users_table, refresh_tokens_table, password_resets_table, update, create, delete, find_first,
  emit,
}
use auth_backend.Auth.Cookie.{save_cookie, expiring, ninety_days, one_hour}
use auth_backend.Auth.Session.{user_has_id, find_user}
use auth_backend.Auth.Login.{generate_secure_refresh_token, new_session, email_is}
use auth_backend.Auth.Mfa.{account_data, log_event}

abbrev pub is_usable : ℕ → String → PasswordReset → Bool
is_usable now token r = str_eq r.token token && not r.used && leb now r.expires_at

-- The data `{ password, tokenVersion }`.
abbrev pub with_password : String → ℕ → User → User
with_password hashed version r = record r { password = hashed; token_version = version }

module _ (sv : Services) (now : ℕ) where
  abbrev pub new_reset : User → ℕ → PasswordReset
  new_reset u i = record {
    id = i;
    email = u.email;
    token = sv.sign (reset_claims u.id) now;
    expires_at = now + one_hour;
    used = false;
  }

  unfoldable pub forgot_password : String → Action (Unit {0})
  forgot_password email = do
    u ← or_raise (← find_first sv users_table (email_is email)) (bad_request "User not found")
    raise_if u.is_external (bad_request "Password reset is not available for external users")
    create password_resets_table (new_reset u)
    emit (auth_forgot u.full_name u.email (sv.sign (reset_claims u.id) now))

  -- The new password and its token version.
  abbrev pub set_password : User → String → Action (Unit {0})
  set_password u hashed =
      update users_table (user_has_id u.id) (with_password hashed (u.token_version + 1))

  -- `drawn` is the random password, and `salt` the salt of its hash.
  unfoldable pub reset_password : String → String → String → Action (Unit {0})
  reset_password token drawn salt = do
    reset ←
        or_raise (← find_first sv password_resets_table (is_usable now token))
          (bad_request "Invalid token")
    u ← or_raise (← find_first sv users_table (email_is reset.email)) (bad_request "User not found")
    raise_if u.is_external (bad_request "Password reset is not available for external users")
    set_password u (sv.hash drawn salt)
    delete password_resets_table (λ r. r.id == reset.id)
    log_event u.id "password.reset" (account_data u end)
    emit (auth_forgot_reset u.full_name u.email drawn)

  unfoldable pub change_password : HttpContext → String → String → String → Action (Unit {0})
  unfolding find_user save_cookie
  change_password ctx old_password new_password salt = do
    u ← find_user sv now ctx
    raise_if u.is_external (bad_request "Password change is not available for external users")
    raise_if (not (sv.compare old_password u.password)) (unauthorized "Invalid old password")
    set_password u (sv.hash new_password salt)
    let token = generate_secure_refresh_token sv now u
    create refresh_tokens_table (new_session now ctx u.id (u.token_version + 1) token)
    save_cookie sv "refreshToken" token (expiring (now + ninety_days))
    log_event u.id "password.change" (account_data u end)
