-- ===== src/Tests/Sequences.antt =====
-- Sequences of operations: revoking and listing, forgetting and resetting, turning a factor on.
use mathlib.Core.List.Memᴰ
use auth_backend.Base.{◌≡◌, ◌∙◌, sym, ap, refl, true, Memᴰ, some, [], ◌∷◌, arith}
use auth_backend.Base.Text.{split}
use auth_backend.Model.{World, HttpContext, User, RefreshToken}
use auth_backend.Action.{ok}
use auth_backend.Tests.Fixtures.{services, ann, session, world, context, only, different}
use auth_backend.Auth.Session.Logout.{HasUniqueTokens}
use auth_backend.Auth.Password.{forgot_password, reset_password}
use auth_backend.Auth.Password.Forgot.{reset_password-forgot_password}
use auth_backend.Auth.Mfa.{
  session_user, verify_mfa_code, codes_of, draw_codes, generate_backup_codes,
}
use auth_backend.Auth.Mfa.Enable.{codes_of-verify_mfa_code}

-- A second session of Ann's, from which she revokes the first.
abbrev other_session : RefreshToken
other_session = record session { id = 20; token = "other" }

abbrev two_sessions : World
two_sessions = record world { refresh_tokens = session ∷ other_session ∷ [] }

abbrev other_context : HttpContext
other_context = record context { refresh_cookie = some "other" }

two_sessions-HasUniqueTokens : HasUniqueTokens two_sessions.refresh_tokens
two_sessions-HasUniqueTokens r s (Memᴰ.head e) (Memᴰ.head d) same =
    ap (λ (t : RefreshToken). t.id) (e ∙ sym d)
two_sessions-HasUniqueTokens r s (Memᴰ.head e) (Memᴰ.tail n) same = absurd (
    different "old" "other" refl (
      ap (λ (t : RefreshToken). t.token) (sym e)
      ∙ same
      ∙ ap (λ (t : RefreshToken). t.token) (Memᴰ.eq_of_singleton n)))
two_sessions-HasUniqueTokens r s (Memᴰ.tail m) (Memᴰ.head d) same = absurd (
    different "other" "old" refl (
      ap (λ (t : RefreshToken). t.token) (sym (Memᴰ.eq_of_singleton m))
      ∙ same
      ∙ ap (λ (t : RefreshToken). t.token) d))
two_sessions-HasUniqueTokens r s (Memᴰ.tail m) (Memᴰ.tail n) same =
    ap (λ (t : RefreshToken). t.id) (only m n)

abbrev empty_resets : World
empty_resets = record world { password_resets = [] }

reset_password-forgot_password_example :
    ((forgot_password services 100 "ann@x.org" empty_resets).0 ≡ ok tt)
    × ((reset_password services 200 "reset" "new" "salt"
          (forgot_password services 100 "ann@x.org" empty_resets).1).0
        ≡ ok tt)
reset_password-forgot_password_example =
    reset_password-forgot_password services 100 200 "ann@x.org" "new" "salt" empty_resets ann refl
      refl (omega arith) (omega arith) (λ r m. elim m [ ])

-- Ann once she has turned the second factor on.
abbrev enabled_ann : User
enabled_ann = record ann {
  backup_codes = some (generate_backup_codes (λ i. "ab"));
  is_two_factor_enabled = true;
}

codes_of-verify_mfa_code_example :
    (enabled_ann.is_two_factor_enabled ≡ true)
    × (codes_of enabled_ann ≡ split (generate_backup_codes (λ i. "ab")))
    × (split (generate_backup_codes (λ i. "ab")) ≡ draw_codes (λ i. "ab") 0 10)
unfolding verify_mfa_code session_user
codes_of-verify_mfa_code_example =
    codes_of-verify_mfa_code services 100 context (some "123456") (λ i. "ab") world ann enabled_ann
      (split (generate_backup_codes (λ i. "ab"))) (λ i. (refl, (refl, tt))) refl refl
      (Memᴰ.head refl) refl
