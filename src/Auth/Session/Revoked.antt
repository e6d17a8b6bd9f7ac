-- ===== src/Auth/Session/Revoked.antt =====
-- What `revokeToken` ends: the session is neither listed nor refreshed any more.
use auth_backend.Base.{
  ℕ, String, ◌≡◌, ◌≢◌, List, Memᴰ, some, none, Option-cases, inl, inr, arith, eq_iff, ==_iff,
  ==_refl,
}
use auth_backend.Model.{World, HttpContext, RefreshToken}
use auth_backend.Action.{Result-cases, ok, err}
use auth_backend.Services.{Services}
use auth_backend.Store.{replace}
use auth_backend.Store.Rows.{any_found, replace-mem}
use auth_backend.Auth.Session.{
  has_id, as_revoked, revocable, is_active, is_alive, invalid_credentials, refresh_token,
  revoke_token, find_user, get_alive_sessions,
}
use auth_backend.Auth.Session.Logout.{HasUniqueTokens, revoked_is_gone}

-- A session that is listed as alive is a stored row that is not revoked.
alive_unrevoked :
    (sv : Services) (now : ℕ) (ctx : HttpContext) (w : World) (sessions : List RefreshToken)
    (s : RefreshToken)
    → (get_alive_sessions sv now ctx w).0 ≡ ok sessions
    → Memᴰ s sessions
    → Memᴰ s w.refresh_tokens × (s.revoked ≡ none)
unfolding get_alive_sessions find_user
alive_unrevoked sv now ctx w sessions s listed m = elim (Result-cases (find_user sv now ctx w).0) [
  | inl (e, refused) ↦ absurd (ground arith)
  | inr (u, found) ↦
      let rows : sv.find_many (is_alive sv now u.id u.token_version) w.refresh_tokens ≡ sessions =
        ground arith in
      let (k, alive) =
        sv.find_many_sound (is_alive sv now u.id u.token_version) w.refresh_tokens s (rw rows m) in
      (k, ground arith)
]

module _ (sv : Services) (now : ℕ) (ctx : HttpContext) (token : String) (w : World) where
  -- The row that a successful `revoke_token` has revoked.
  record Revocation : Type 0 where
    row : RefreshToken
    listed : Memᴰ row w.refresh_tokens
    token_is : row.token ≡ token
    rows_after :
        (revoke_token sv now ctx token w).1.refresh_tokens
        ≡ replace (has_id row.id) (as_revoked now "Token revoked by user") w.refresh_tokens

  revoke_token-Revocation : (revoke_token sv now ctx token w).0 ≡ ok tt → Revocation
  unfolding revoke_token
  revoke_token-Revocation e = elim (Option-cases ctx.user) [
    | inl nobody ↦ absurd (ground arith)
    | inr (me, known) ↦
        elim (Option-cases (sv.find_first (revocable sv now token me.id) w.refresh_tokens)) [
          | inl missing ↦ absurd (ground arith)
          | inr (r, found) ↦
              let (m, live) =
                sv.find_first_some (revocable sv now token me.id) w.refresh_tokens found in
              let there =
                any_found sv (revocable sv now token me.id) (has_id r.id) w.refresh_tokens r found
                  (==_refl r.id) in
              record {
                row = r;
                listed = m;
                token_is = ground (arith, eq_iff r.token token);
                rows_after = ground (arith, there);
              }
        ]
  ]

  -- A token that its user has revoked can no longer be refreshed, at any time, and the attempt
  -- changes nothing. Conditions: the token is not empty, and rows that carry one token are one row.
  refresh_token-revoke_token :
      (later : ℕ)
      → HasUniqueTokens w.refresh_tokens
      → token ≢ ""
      → (revoke_token sv now ctx token w).0 ≡ ok tt
      → refresh_token sv later (some token) (revoke_token sv now ctx token w).1
        ≡ (err invalid_credentials, (revoke_token sv now ctx token w).1)
  unfolding refresh_token
  refresh_token-revoke_token later unique nonempty e =
      let d = revoke_token-Revocation e in
      let gone =
        revoked_is_gone sv now later token "Token revoked by user" w.refresh_tokens d.row unique
          d.listed d.token_is in
      let missing : sv.find_first (is_active later token)
            (revoke_token sv now ctx token w).1.refresh_tokens
          ≡ none =
        rw d.rows_after gone in
      ground (arith, eq_iff token "")

  -- After a token was revoked no session of that token is listed as alive, to any request at any
  -- time. Condition: rows that carry one token are one row.
  get_alive_sessions-revoke_token :
      (later : ℕ) (other : HttpContext) (sessions : List RefreshToken) (s : RefreshToken)
      → HasUniqueTokens w.refresh_tokens
      → (revoke_token sv now ctx token w).0 ≡ ok tt
      → (get_alive_sessions sv later other (revoke_token sv now ctx token w).1).0 ≡ ok sessions
      → Memᴰ s sessions
      → s.token ≢ token
  get_alive_sessions-revoke_token later other sessions s unique e listed m same =
      let d = revoke_token-Revocation e in
      let (stored, live) =
        alive_unrevoked sv later other (revoke_token sv now ctx token w).1 sessions s listed m in
      let (t, k, change) =
        replace-mem (has_id d.row.id) (as_revoked now "Token revoked by user") w.refresh_tokens s
          (rw d.rows_after at stored) in
      let one = unique t d.row k d.listed in
      ground (arith, change, live, d.token_is, ==_iff t.id d.row.id)
