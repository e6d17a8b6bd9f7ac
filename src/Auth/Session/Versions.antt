-- ===== src/Auth/Session/Versions.antt =====
-- Token versions: which of the operations on a session look at them.
use auth_backend.Base.{
  ℕ, String, ◌≡◌, ◌≢◌, ◌≤◌, Bool, true, false, Memᴰ, Option, none, some, truthy, Option-cases, inl,
  inr, arith, eq_iff,
}
use auth_backend.Model.{World, HttpContext, RefreshToken, User}
use auth_backend.Action.{Result, ok, err, succeeds}
use auth_backend.Services.{Services}
use auth_backend.Store.Rows.{any_found}
use auth_backend.Auth.Session.{
  is_active, has_id, user_has_id, access_claims_of, SessionStatus, no_session, refresh,
  get_user_session_status, get_user_info,
}

-- The row and the user that a valid session stands on.
pub record IsLive (now : ℕ) (ctx : HttpContext) (w : World) (s : SessionStatus) : Type 0 where
  pub row : RefreshToken
  pub owner : User
  pub stored : Memᴰ row w.refresh_tokens
  pub known : Memᴰ owner w.users
  pub token : truthy ctx.refresh_cookie ≡ some row.token
  pub in_time : now ≤ row.expires
  pub unrevoked : row.revoked ≡ none
  pub owned : owner.id ≡ row.user_id
  pub current : owner.token_version ≡ row.token_version
  pub expiry : s.expires ≡ row.expires

abbrev pub reported_valid : Result SessionStatus → Bool
reported_valid (ok s) = s.valid
reported_valid (err e) = false

module _ (sv : Services) (now : ℕ) (ctx : HttpContext) (w : World) where
  -- A session is reported valid only if the table holds an unexpired, unrevoked row of the
  -- cookie's token whose user exists and has the version of the row; its expiry is reported.
  pub get_user_session_status-IsLive :
      (s : SessionStatus)
      → (get_user_session_status sv now ctx w).0 ≡ ok s
      → s.valid ≡ true
      → IsLive now ctx w s
  unfolding get_user_session_status
  get_user_session_status-IsLive s e v = elim (Option-cases (truthy ctx.refresh_cookie)) [
    | inl missing ↦ absurd (ground arith)
    | inr (token, given) ↦
        elim (Option-cases (sv.find_first (is_active now token) w.refresh_tokens)) [
          | inl missing ↦ absurd (ground arith)
          | inr (r, found) ↦ elim (Option-cases (sv.find_first (user_has_id r.user_id) w.users)) [
            | inl missing ↦ absurd (ground arith)
            | inr (u, owner) ↦
                let (m, active) = sv.find_first_some (is_active now token) w.refresh_tokens found in
                let (k, same) = sv.find_first_some (user_has_id r.user_id) w.users owner in
                record {
                  row = r;
                  owner = u;
                  stored = m;
                  known = k;
                  token = ground (arith, eq_iff r.token token);
                  in_time = ground arith;
                  unrevoked = ground arith;
                  owned = ground arith;
                  current = ground arith;
                  expiry = ground arith;
                }
          ]
        ]
  ]

  -- `get_user_info` answers exactly when the session is reported valid.
  pub get_user_info_iff_valid :
      succeeds (get_user_info sv now ctx.refresh_cookie w).0
      ≡ reported_valid (get_user_session_status sv now ctx w).0
  unfolding get_user_info get_user_session_status
  get_user_info_iff_valid = elim (Option-cases (truthy ctx.refresh_cookie)) [
    | inl missing ↦ ground arith
    | inr (token, given) ↦
        elim (Option-cases (sv.find_first (is_active now token) w.refresh_tokens)) [
          | inl missing ↦ ground arith
          | inr (r, found) ↦ elim (Option-cases (sv.find_first (user_has_id r.user_id) w.users)) [
            | inl missing ↦ ground arith
            | inr (u, owner) ↦ ground arith
          ]
        ]
  ]

  -- A session of an old version is reported invalid, and `refresh` gives it an access token all
  -- the same. Conditions: the row of the cookie is active, and its user exists.
  refresh_outdated :
      (token : String) (body : Option String) (r : RefreshToken) (u : User)
      → truthy ctx.refresh_cookie ≡ some token
      → sv.find_first (is_active now token) w.refresh_tokens ≡ some r
      → sv.find_first (user_has_id r.user_id) w.users ≡ some u
      → u.token_version ≢ r.token_version
      → ((get_user_session_status sv now ctx w).0 ≡ ok (no_session sv now))
        × ((refresh sv now ctx body w).0 ≡ ok (access_claims_of u sv now))
  unfolding get_user_session_status refresh
  refresh_outdated token body r u given found owner old =
      let there = any_found sv (is_active now token) (has_id r.id) w.refresh_tokens r found in
      (ground arith, ground (arith, there))
