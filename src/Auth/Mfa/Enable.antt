-- ===== src/Auth/Mfa/Enable.antt =====
-- What `verifyMfaCode` turns on.
use auth_backend.Base.{
  ℕ, String, ◌≡◌, ◌∙◌, true, List, Memᴰ, Option, some, Option-cases, inl, inr, arith, ==_iff,
  ==_refl, truthy,
}
use auth_backend.Base.Text.{split}
use auth_backend.Base.Text.Split.{NoComma}
use auth_backend.Model.{World, HttpContext, User}
use auth_backend.Action.{Result-cases, ok}
use auth_backend.Services.{Services}
use auth_backend.Store.{replace}
use auth_backend.Store.Rows.{any_found, replace-mem}
use auth_backend.Auth.Session.{user_has_id}
use auth_backend.Auth.Mfa.{
  is_active_here, generate_backup_codes, draw_codes, codes_of, session_user, verify_mfa_code,
}
use auth_backend.Auth.Mfa.Codes.{split-generate_backup_codes}

-- The account with the second factor on.
abbrev enabled : (ℕ → String) → User → User
enabled fresh r = record r {
  backup_codes = some (generate_backup_codes fresh);
  is_two_factor_enabled = true;
}

module _ (sv : Services) (now : ℕ) (ctx : HttpContext) (given : Option String) (fresh : ℕ → String)
    (w : World) where
  -- What a successful `verify_mfa_code` went through and wrote.
  record Enabled (u : User) (codes : List String) : Type 0 where
    checked :
        (code : String) × (truthy given ≡ some code)
        × (sv.verify_totp code u.totp_secret now ≡ ok true)
    returned : codes ≡ split (generate_backup_codes fresh)
    users_after :
        (verify_mfa_code sv now ctx given fresh w).1.users
        ≡ replace (user_has_id u.id) (enabled fresh) w.users

  verify_mfa_code-Enabled :
      (u : User) (codes : List String)
      → (session_user sv now ctx w).0 ≡ ok u
      → (verify_mfa_code sv now ctx given fresh w).0 ≡ ok codes
      → Enabled u codes
  unfolding verify_mfa_code session_user
  verify_mfa_code-Enabled u codes mine done = elim (Option-cases (truthy ctx.refresh_cookie)) [
    | inl missing ↦ absurd (ground arith)
    | inr (token, cookie) ↦ elim (Option-cases ctx.user) [
      | inl nobody ↦ absurd (ground arith)
      | inr (me, known) ↦
          elim (Option-cases (
            sv.find_first (is_active_here now token ctx.user_agent me.token_version)
              w.refresh_tokens)) [
                | inl missing ↦ absurd (ground arith)
                | inr (r, found) ↦
                    elim (Option-cases (sv.find_first (user_has_id r.user_id) w.users)) [
                      | inl missing ↦ absurd (ground arith)
                      | inr (v, owner) ↦ elim (Option-cases (truthy given)) [
                        | inl missing ↦ absurd (ground arith)
                        | inr (code, has_code) ↦
                            let there =
                              any_found sv (user_has_id r.user_id) (user_has_id v.id) w.users v
                                owner (==_refl v.id) in
                            let same : v ≡ u = ground arith in
                            elim (Result-cases (sv.verify_totp code u.totp_secret now)) [
                              | inl (e, threw) ↦ absurd (ground (arith, same))
                              | inr (valid, ran) ↦ record {
                                checked = (code, has_code, ground (arith, same));
                                returned = ground (arith, same);
                                users_after = ground (arith, same, there);
                              }
                            ]
                      ]
                    ]
              ]
    ]
  ]

  -- Once the code was accepted, the account of the session has the second factor on, and its
  -- backup codes are those that are returned, the ten that were drawn. Condition: no drawn text
  -- holds a comma.
  pub codes_of-verify_mfa_code :
      (u v : User) (codes : List String)
      → ((i : ℕ) → NoComma (fresh i))
      → (session_user sv now ctx w).0 ≡ ok u
      → (verify_mfa_code sv now ctx given fresh w).0 ≡ ok codes
      → Memᴰ v (verify_mfa_code sv now ctx given fresh w).1.users
      → v.id ≡ u.id
      → (v.is_two_factor_enabled ≡ true) × (codes_of v ≡ codes) × (codes ≡ draw_codes fresh 0 10)
  codes_of-verify_mfa_code u v codes plain mine done m same =
      let d = verify_mfa_code-Enabled u codes mine done in
      let (t, k, change) =
        replace-mem (user_has_id u.id) (enabled fresh) w.users v (rw d.users_after at m) in
      let now_enabled : v ≡ enabled fresh t = ground (arith, change, ==_iff t.id u.id) in
      let drawn = split-generate_backup_codes fresh plain in
      (ground arith, ground (arith, now_enabled, d.returned), d.returned ∙ drawn)
