-- ===== src/Auth/Password/Forgot.antt =====
-- A forgotten password: `forgotPassword`, and then `resetPassword`.
use mathlib.Core.List.Memᴰ
use auth_backend.Base.{
  ℕ, ◌+◌, ◌≤◌, String, ◌≡◌, ◌≢◌, ap, refl, true, false, [], ◌∷◌, ◌++◌, Memᴰ, some, inl, inr, arith,
  eq_iff, eq_refl, ==_refl, ◌==◌, ◌∙◌,
}
use auth_backend.Model.{World, User, PasswordReset}
use auth_backend.Action.{ok}
use auth_backend.Services.{Services, reset_password as reset_claims}
use auth_backend.Store.Rows.{any_found, find_first-eq-some}
use auth_backend.Auth.Cookie.{one_hour}
use auth_backend.Auth.Session.{user_has_id}
use auth_backend.Auth.Login.{email_is}
use auth_backend.Auth.Password.{is_usable, new_reset, forgot_password, reset_password}

-- A usable reset of an internal account goes through.
reset_runs :
    (sv : Services) (now : ℕ) (token drawn salt : String) (w : World) (r : PasswordReset) (u : User)
    → sv.find_first (is_usable now token) w.password_resets ≡ some r
    → sv.find_first (email_is r.email) w.users ≡ some u
    → u.is_external ≡ false
    → (reset_password sv now token drawn salt w).0 ≡ ok tt
unfolding reset_password
reset_runs sv now token drawn salt w r u usable owner internal =
    let account =
      any_found sv (email_is r.email) (user_has_id u.id) w.users u owner (==_refl u.id) in
    let stored =
      any_found sv (is_usable now token) (λ (s : PasswordReset). s.id == r.id) w.password_resets r
        usable (==_refl r.id) in
    ground (arith, account, stored)

module _ (sv : Services) (now later : ℕ) (email drawn salt : String) (w : World) (u : User) where
  -- Who forgot a password can reset it: for an internal account the request succeeds, and the
  -- token that it signs resets the password at any time within the next hour. Condition: no stored
  -- reset has that token already.
  pub reset_password-forgot_password :
      sv.find_first (email_is email) w.users ≡ some u
      → u.is_external ≡ false
      → now ≤ later
      → later ≤ now + one_hour
      → ((r : PasswordReset) → Memᴰ r w.password_resets → r.token ≢ sv.sign (reset_claims u.id) now)
      → ((forgot_password sv now email w).0 ≡ ok tt)
        × ((reset_password sv later
              (sv.sign (reset_claims u.id) now)
              drawn
              salt
              (forgot_password sv now email w).1).0
            ≡ ok tt)
  unfolding forgot_password
  reset_password-forgot_password found internal from until fresh =
      let token = sv.sign (reset_claims u.id) now in
      let after : World = (forgot_password sv now email w).1 in
      let (m, same) = sv.find_first_some (email_is email) w.users found in
      let row : PasswordReset = new_reset sv now u w.next_id in
      let rows : after.password_resets ≡ w.password_resets ++ row ∷ [] = ground arith in
      let users : after.users ≡ w.users = ground arith in
      let usable_row : is_usable later token row ≡ true = ground (arith, eq_refl token) in
      let (r, is_first) =
        find_first-eq-some sv (is_usable later token) (w.password_resets ++ row ∷ []) row
          (Memᴰ.append_right w.password_resets (Memᴰ.head refl)) usable_row in
      let (k, usable) =
        sv.find_first_some (is_usable later token) (w.password_resets ++ row ∷ []) is_first in
      let is_row : r ≡ row = elim (Memᴰ.append_cases w.password_resets k) [
        | inl old ↦ absurd (fresh r old (ground (arith, eq_iff r.token token)))
        | inr new ↦ Memᴰ.eq_of_singleton new
      ] in
      let email_same : r.email ≡ email =
        ap (λ (s : PasswordReset). s.email) is_row ∙ (eq_iff u.email email).0 same in
      (
        ground arith,
        reset_runs sv later token drawn salt after r u (rw rows is_first)
            (rw (users, email_same) found) internal,
      )
