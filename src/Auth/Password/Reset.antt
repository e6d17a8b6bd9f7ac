-- ===== src/Auth/Password/Reset.antt =====
-- The life of a reset token: asked for by `forgotPassword`, used up by `resetPassword`.
use auth_backend.Base.{
  ℕ, ◌+◌, ◌≤◌, String, ◌≡◌, false, not, List, Memᴰ, none, Option-cases, inl, inr, arith, eq_iff,
  ==_refl, filter, mem-filter, ◌==◌,
}
use auth_backend.Model.{World, User, PasswordReset}
use auth_backend.Action.{ok, err, bad_request}
use auth_backend.Services.{Services}
use auth_backend.Store.{replace}
use auth_backend.Store.Rows.{any_found, find_first-eq-none}
use auth_backend.Auth.Session.{user_has_id}
use auth_backend.Auth.Login.{email_is}
use auth_backend.Auth.Password.{is_usable, with_password, reset_password}

-- Rows that carry one reset token are one row.
abbrev pub HasUniqueResets : List PasswordReset → Type 0
HasUniqueResets rows =
    (r s : PasswordReset) → Memᴰ r rows → Memᴰ s rows → r.token ≡ s.token → r.id ≡ s.id

reset_refused :
    (sv : Services) (now : ℕ) (token drawn salt : String) (w : World)
    → sv.find_first (is_usable now token) w.password_resets ≡ none
    → reset_password sv now token drawn salt w ≡ (err (bad_request "Invalid token"), w)
unfolding reset_password
reset_refused sv now token drawn salt w missing = ground arith

module _ (sv : Services) (now : ℕ) (token drawn salt : String) (w : World) where
  -- What a successful `reset_password` went through and wrote.
  pub record WasReset : Type 0 where
    pub reset : PasswordReset
    pub user : User
    pub listed : Memᴰ reset w.password_resets
    pub token_is : reset.token ≡ token
    pub unused : reset.used ≡ false
    pub in_time : now ≤ reset.expires_at
    pub account : Memᴰ user w.users
    pub account_email : user.email ≡ reset.email
    pub internal : user.is_external ≡ false
    pub users_after :
        (reset_password sv now token drawn salt w).1.users
        ≡ replace
            (user_has_id user.id)
            (with_password (sv.hash drawn salt) (user.token_version + 1))
            w.users
    pub resets_after :
        (reset_password sv now token drawn salt w).1.password_resets
        ≡ filter (λ r. not (r.id == reset.id)) w.password_resets

  -- A password is reset only by an unused, unexpired token of the table, for the internal account
  -- of its email; only that account's password and version change, and the token's row is gone.
  reset_password-WasReset : (reset_password sv now token drawn salt w).0 ≡ ok tt → WasReset
  unfolding reset_password
  reset_password-WasReset e =
      elim (Option-cases (sv.find_first (is_usable now token) w.password_resets)) [
        | inl missing ↦ absurd (ground arith)
        | inr (r, found) ↦ elim (Option-cases (sv.find_first (email_is r.email) w.users)) [
          | inl missing ↦ absurd (ground arith)
          | inr (u, owner) ↦
              let (m, usable) = sv.find_first_some (is_usable now token) w.password_resets found in
              let (k, same) = sv.find_first_some (email_is r.email) w.users owner in
              let there =
                any_found sv (email_is r.email) (user_has_id u.id) w.users u owner (==_refl u.id) in
              let stored =
                any_found sv (is_usable now token) (λ (s : PasswordReset). s.id == r.id)
                  w.password_resets r found (==_refl r.id) in
              record {
                reset = r;
                user = u;
                listed = m;
                token_is = ground (arith, eq_iff r.token token);
                unused = ground arith;
                in_time = ground arith;
                account = k;
                account_email = ground (arith, eq_iff u.email r.email);
                internal = ground arith;
                users_after = ground (arith, there, stored);
                resets_after = ground (arith, there, stored);
              }
        ]
      ]

  -- A reset token works once: a second call with it, at any time, is refused and changes nothing.
  -- Condition: rows that carry one reset token are one row.
  pub reset_password_once :
      (later : ℕ) (drawn' salt' : String)
      → HasUniqueResets w.password_resets
      → (reset_password sv now token drawn salt w).0 ≡ ok tt
      → reset_password sv later token drawn' salt' (reset_password sv now token drawn salt w).1
        ≡ (err (bad_request "Invalid token"), (reset_password sv now token drawn salt w).1)
  reset_password_once later drawn' salt' unique e =
      let d = reset_password-WasReset e in
      reset_refused sv later token drawn' salt' (reset_password sv now token drawn salt w).1 (
        find_first-eq-none sv (is_usable later token) _ λ r m.
          let (k, kept) =
            mem-filter (λ (s : PasswordReset). not (s.id == d.reset.id)) w.password_resets r
              (rw d.resets_after at m) in
          let one = unique r d.reset k d.listed in ground (arith, d.token_is, eq_iff r.token token))
