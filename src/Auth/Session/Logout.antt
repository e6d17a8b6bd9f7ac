-- ===== src/Auth/Session/Logout.antt =====
-- What ends a session: `logout` and `revokeToken`, seen by a later `refresh`.
use auth_backend.Base.{
  ℕ, String, ◌≡◌, List, Memᴰ, none, truthy, Option-cases, inl, inr, arith, eq_iff,
}
use auth_backend.Model.{World, HttpContext, RefreshToken}
use auth_backend.Action.{ok, err}
use auth_backend.Services.{Services}
use auth_backend.Store.{replace}
use auth_backend.Store.Rows.{any_found, replace-mem, find_first-eq-none}
use auth_backend.Auth.Session.{
  invalid_credentials, is_active, has_id, as_revoked, refresh_token, logout,
}

-- Rows that carry one token are one row.
abbrev pub HasUniqueTokens : List RefreshToken → Type 0
HasUniqueTokens rows =
    (r s : RefreshToken) → Memᴰ r rows → Memᴰ s rows → r.token ≡ s.token → r.id ≡ s.id

module _ (sv : Services) where
  -- Once the row of a token is revoked, no row of that token is active.
  pub revoked_is_gone :
      (now later : ℕ) (token reason : String) (rows : List RefreshToken) (r : RefreshToken)
      → HasUniqueTokens rows
      → Memᴰ r rows
      → r.token ≡ token
      → sv.find_first (is_active later token) (replace (has_id r.id) (as_revoked now reason) rows)
        ≡ none
  revoked_is_gone now later token reason rows r unique m same = find_first-eq-none sv _ _ λ s n.
      let (t, k, e) = replace-mem (has_id r.id) (as_revoked now reason) rows s n in
      rw e (ground (arith, unique t r k m, eq_iff t.token token))

  -- After a logout the cookie's token can no longer be refreshed, at any time, and the attempt
  -- changes nothing. Condition: rows that carry one token are one row.
  pub refresh_token-logout :
      (now later : ℕ) (ctx : HttpContext) (w : World)
      → HasUniqueTokens w.refresh_tokens
      → (logout sv now ctx w).0 ≡ ok tt
      → refresh_token sv later ctx.refresh_cookie (logout sv now ctx w).1
        ≡ (err invalid_credentials, (logout sv now ctx w).1)
  unfolding refresh_token logout
  refresh_token-logout now later ctx w unique e = elim (Option-cases (truthy ctx.refresh_cookie)) [
    | inl missing ↦ ground arith
    | inr (token, given) ↦
        elim (Option-cases (sv.find_first (is_active now token) w.refresh_tokens)) [
          | inl missing ↦ ground arith
          | inr (r, found) ↦
              let (m, active) = sv.find_first_some (is_active now token) w.refresh_tokens found in
              ground (
                arith,
                any_found sv (is_active now token) (has_id r.id) w.refresh_tokens r found,
                eq_iff r.token token,
                revoked_is_gone now later token "User logged out" w.refresh_tokens r unique m,
              )
        ]
  ]
