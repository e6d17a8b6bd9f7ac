-- ===== src/Auth/Password/Change.antt =====
-- What `changePassword` does to the sessions of the account.
use mathlib.Core.List.Memᴰ
use auth_backend.Base.{
  ℕ, ◌+◌, ◌≤◌, String, ◌≡◌, true, false, [], ◌∷◌, ◌++◌, Memᴰ, Option-cases, inl, inr, arith, ==_iff,
  ==_refl, truthy, ap, sym, ◌∙◌,
}
use auth_backend.Model.{World, HttpContext, User, RefreshToken}
use auth_backend.Action.{ok}
use auth_backend.Services.{Services}
use auth_backend.Store.{replace}
use auth_backend.Store.Rows.{any_found, replace-mem}
use auth_backend.Auth.Session.{find_user, user_has_id, is_active_at}
use auth_backend.Auth.Login.{new_session, generate_secure_refresh_token}
use auth_backend.Auth.Password.{with_password, change_password}

-- No session is of a later version than its user.
abbrev pub HasBoundedVersions : World → Type 0
HasBoundedVersions w =
    (r : RefreshToken) (u : User)
    → Memᴰ r w.refresh_tokens
    → Memᴰ u w.users
    → r.user_id ≡ u.id
    → r.token_version ≤ u.token_version

module _ (sv : Services) (now : ℕ) (ctx : HttpContext) (old new salt : String) (w : World) where
  -- What a successful `change_password` went through and wrote.
  pub record Changed : Type 0 where
    pub user : User
    pub found : (find_user sv now ctx w).0 ≡ ok user
    pub account : Memᴰ user w.users
    pub internal : user.is_external ≡ false
    pub fits : sv.compare old user.password ≡ true
    pub users_after :
        (change_password sv now ctx old new salt w).1.users
        ≡ replace
            (user_has_id user.id)
            (with_password (sv.hash new salt) (user.token_version + 1))
            w.users
    pub row_id : ℕ
    pub sessions_after :
        (change_password sv now ctx old new salt w).1.refresh_tokens
        ≡ w.refresh_tokens
          ++ new_session now ctx user.id
              (user.token_version + 1)
              (generate_secure_refresh_token sv now user)
              row_id
            ∷ []

  -- A password is changed only for the internal account of a live session whose old password was
  -- given; that account's password and version change, and a session of the new version is added.
  change_password-Changed : (change_password sv now ctx old new salt w).0 ≡ ok tt → Changed
  unfolding change_password find_user
  change_password-Changed e = elim (Option-cases (truthy ctx.refresh_cookie)) [
    | inl missing ↦ absurd (ground arith)
    | inr (token, given) ↦ elim (Option-cases ctx.user) [
      | inl missing ↦ absurd (ground arith)
      | inr (me, known) ↦
          elim (Option-cases
            (sv.find_first (is_active_at now token me.token_version) w.refresh_tokens)) [
              | inl missing ↦ absurd (ground arith)
              | inr (r, found) ↦
                  elim (Option-cases (sv.find_first (user_has_id r.user_id) w.users)) [
                    | inl missing ↦ absurd (ground arith)
                    | inr (u, owner) ↦
                        let (k, same) = sv.find_first_some (user_has_id r.user_id) w.users owner in
                        let there =
                          any_found sv (user_has_id r.user_id) (user_has_id u.id) w.users u owner
                            (==_refl u.id) in
                        record {
                          user = u;
                          found = ground arith;
                          account = k;
                          internal = ground arith;
                          fits = ground arith;
                          users_after = ground (arith, there);
                          row_id = w.next_id;
                          sessions_after = ground (arith, there);
                        }
                  ]
            ]
    ]
  ]

  -- After a change of password the only stored session of the account whose version is the
  -- account's is the one that the change has made: all earlier sessions are outdated. Condition:
  -- before, no session is of a later version than its user.
  pub change_password_ends_sessions :
      (u v : User) (r : RefreshToken)
      → HasBoundedVersions w
      → (find_user sv now ctx w).0 ≡ ok u
      → (change_password sv now ctx old new salt w).0 ≡ ok tt
      → Memᴰ v (change_password sv now ctx old new salt w).1.users
      → v.id ≡ u.id
      → Memᴰ r (change_password sv now ctx old new salt w).1.refresh_tokens
      → r.user_id ≡ v.id
      → r.token_version ≡ v.token_version
      → (r.token ≡ generate_secure_refresh_token sv now u) × (r.created ≡ now)
  change_password_ends_sessions u v r bounded found e n same_id m own current =
      let d = change_password-Changed e in
      let same : d.user ≡ u = cc (d.found) in
      let (k, listed, changed) =
        replace-mem (user_has_id d.user.id)
          (with_password (sv.hash new salt) (d.user.token_version + 1)) w.users v
          (rw d.users_after at n) in
      let version : v.token_version ≡ d.user.token_version + 1 =
        ground (arith, changed, ap (λ (x : User). x.id) same, ==_iff k.id d.user.id) in
      elim (Memᴰ.append_cases w.refresh_tokens (rw d.sessions_after at m)) [
        | inl earlier ↦
            let low =
              bounded r d.user earlier d.account
                (own ∙ same_id ∙ ap (λ (x : User). x.id) (sym same)) in
            absurd (omega arith)
        | inr made ↦ let one = Memᴰ.eq_of_singleton made in ground (arith, same)
      ]
