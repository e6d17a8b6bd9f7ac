-- ===== src/Auth/Mfa/Verify.antt =====
-- What a login with a code needs, and what it leaves.
use mathlib.Core.List.Memᴰ
use auth_backend.Base.{
  ℕ, String, ◌≡◌, ◌≢◌, ◌⊎◌, refl, Bool, true, false, [], ◌∷◌, ◌++◌, Memᴰ, some, Option-cases, inl,
  inr, arith, eq_iff, ==_refl, includes, sym, ◌∙◌, if◌then◌else◌,
}
use auth_backend.Base.Text.{join}
use auth_backend.Model.{World, HttpContext, User}
use auth_backend.Action.{Result-cases, ok}
use auth_backend.Services.{Services}
use auth_backend.Store.{replace}
use auth_backend.Store.Rows.{any_found, replace-mem}
use auth_backend.Auth.Session.{user_has_id}
use auth_backend.Auth.Login.{email_is, new_session}
use auth_backend.Auth.Login.Run.{HoldsSession}
use auth_backend.Auth.Login.Gate.{HasUniqueEmails}
use auth_backend.Auth.Mfa.{codes_of, without, verify_mfa, MfaReply}
use auth_backend.Auth.Mfa.Codes.{used_code_is_gone}

-- The users once the code is taken from those of `u`.
abbrev without_code : String → User → User → User
without_code code u r = record r { backup_codes = some (join "," (without code (codes_of u))) }

module _ (sv : Services) (now : ℕ) (ctx : HttpContext) (email password code : String)
    (w : World) where
  -- What a successful `verify_mfa` went through; `valid` is what the time-based check said.
  pub record Verified (r : MfaReply) : Type 0 where
    pub user : User
    pub valid : Bool
    pub found : sv.find_first (email_is email) w.users ≡ some user
    pub internal : user.is_external ≡ false
    pub fits : sv.compare password user.password ≡ true
    pub checked : sv.verify_totp code user.totp_secret now ≡ ok valid
    pub backed : (valid ≡ true) ⊎ (includes (codes_of user) code ≡ true)
    pub users_after : (verify_mfa sv now ctx email password code w).1.users ≡ (
        if valid then w.users else replace (user_has_id user.id) (without_code code user) w.users)
    pub holds :
        HoldsSession now user r.refresh_token
          (verify_mfa sv now ctx email password code w).1.refresh_tokens

  pub verify_mfa-Verified :
      (r : MfaReply) → (verify_mfa sv now ctx email password code w).0 ≡ ok r → Verified r
  unfolding verify_mfa
  verify_mfa-Verified r e = elim (Option-cases (sv.find_first (email_is email) w.users)) [
    | inl missing ↦ absurd (ground arith)
    | inr (u, found) ↦ elim (Result-cases (sv.verify_totp code u.totp_secret now)) [
      | inl (x, threw) ↦ absurd (ground arith)
      | inr (valid, checked) ↦
          let there =
            any_found sv (email_is email) (user_has_id u.id) w.users u found (==_refl u.id) in
          let row = new_session now ctx u.id u.token_version r.refresh_token w.next_id in
          let appended : (verify_mfa sv now ctx email password code w).1.refresh_tokens
              ≡ w.refresh_tokens ++ row ∷ [] =
            ground (arith, there) in
          record {
            user = u;
            valid = valid;
            found = found;
            internal = ground arith;
            fits = ground arith;
            checked = checked;
            backed = ground arith;
            users_after = ground (arith, there);
            holds = record {
              row = row;
              stored = rw appended (Memᴰ.append_right w.refresh_tokens (Memᴰ.head refl));
              token_is = refl;
              owned = refl;
              current = refl;
              unrevoked = refl;
              in_time = omega arith;
            };
          }
    ]
  ]

  codes_without :
      (u v : User)
      → code ≢ ""
      → includes (codes_of u) code ≡ true
      → v ≡ without_code code u u
      → includes (codes_of v) code ≡ false
  codes_without u v nonempty listed e = elim (Option-cases u.backup_codes) [
    | inl missing ↦ absurd (ground arith)
    | inr (stored, some_stored) ↦ rw (e, some_stored) (used_code_is_gone code stored nonempty)
  ]

  uses_up :
      (u v : User) (valid : Bool)
      → HasUniqueEmails w.users
      → code ≢ ""
      → Memᴰ u w.users
      → email_is email u ≡ true
      → valid ≡ false
      → (valid ≡ true) ⊎ (includes (codes_of u) code ≡ true)
      → Memᴰ v (if valid then w.users else replace (user_has_id u.id) (without_code code u) w.users)
      → v.email ≡ email
      → includes (codes_of v) code ≡ false
  uses_up u v true unique nonempty m em invalid backed n same = cc
  uses_up u v false unique nonempty m em invalid backed n same =
      let (t, k, et) = replace-mem (user_has_id u.id) (without_code code u) w.users v n in
      let emails : t.email ≡ u.email = ground (arith, eq_iff u.email email) in
      let one = unique t u k m emails in
      codes_without u v nonempty (ground arith) (ground (arith, ==_refl u.id))

  -- A backup code logs in once: after a login that it carried, the time-based check having failed,
  -- it is no longer one of the account's codes. Conditions: the code is not empty, and an email is
  -- that of one user.
  pub verify_mfa_uses_up :
      (r : MfaReply) (u v : User)
      → HasUniqueEmails w.users
      → code ≢ ""
      → (verify_mfa sv now ctx email password code w).0 ≡ ok r
      → sv.find_first (email_is email) w.users ≡ some u
      → sv.verify_totp code u.totp_secret now ≡ ok false
      → Memᴰ v (verify_mfa sv now ctx email password code w).1.users
      → v.email ≡ email
      → includes (codes_of v) code ≡ false
  verify_mfa_uses_up r u v unique nonempty e found failed n same =
      let d = verify_mfa-Verified r e in
      let one : u ≡ d.user = cc (d.found) in
      let rejected : ok d.valid ≡ ok false = sym d.checked ∙ (rw one at failed) in
      let (m, em) = sv.find_first_some (email_is email) w.users d.found in
      uses_up d.user v d.valid unique nonempty m em (ground arith) d.backed (rw d.users_after at n)
        same
