-- ===== src/Auth/Login/Run.antt =====
-- What a run of `UserLoginHandler` leaves behind.
use mathlib.Core.List.Memᴰ
use auth_backend.Base.{
  ℕ, String, ◌≡◌, ◌⊎◌, ◌<◌, ◌+◌, refl, true, List, [], ◌∷◌, ◌++◌, Memᴰ, Option, none, some,
  Bool-cases, inl, inr, arith, text_or, any, any-mem, ==_refl, ◌==◌,
}
use auth_backend.Model.{World, HttpContext, RefreshToken, User}
use auth_backend.Action.{ok}
use auth_backend.Services.{Services}
use auth_backend.Store.{replace}
use auth_backend.Store.Rows.{any_found, mem-replace}
use auth_backend.Auth.Session.{as_used, has_id, user_has_id}
use auth_backend.Auth.Login.{
  is_reusable, reuse_token, session_token, record_login, user_login, as_seen, new_login,
  new_session, email_is, generate_secure_refresh_token,
}

-- The row of `token` is an active session of the user.
pub record HoldsSession (now : ℕ) (u : User) (token : String) (rows : List RefreshToken)
    : Type 0 where
  pub row : RefreshToken
  pub stored : Memᴰ row rows
  pub token_is : row.token ≡ token
  pub owned : row.user_id ≡ u.id
  pub current : row.token_version ≡ u.token_version
  pub unrevoked : row.revoked ≡ none
  pub in_time : now < row.expires

-- What a successful run has done to the world.
pub record LoginRun (now : ℕ) (ctx : HttpContext) (u : User) (token : String) (w w' : World)
    : Type 0 where
  pub holds : HoldsSession now u token w'.refresh_tokens
  pub seen : w'.users ≡ replace (user_has_id u.id) (as_seen now ctx.ip) w.users
  pub login_id : ℕ
  pub logged : w'.user_logins ≡ w.user_logins ++ new_login now ctx u.id login_id ∷ []
  pub kept_settings : w'.privacy_settings ≡ w.privacy_settings
  pub kept_cookies : w'.cookies ≡ w.cookies

-- The world after the loop: as before, or with one reusable row marked as used.
pub record Reused (now version : ℕ) (agent : String) (rows : List RefreshToken) (w : World)
    : Type 0 where
  pub row : RefreshToken
  pub listed : Memᴰ row rows
  pub reusable : is_reusable now version agent row ≡ true
  pub result : reuse_token now version agent rows w ≡ (
    ok (some row.token),
    record w { refresh_tokens = replace (has_id row.id) (as_used now) w.refresh_tokens },
  )

module _ (now version : ℕ) (agent : String) (w : World) where
  pub reuse_token-cases :
      (rows : List RefreshToken)
      → ((t : RefreshToken) → Memᴰ t rows → Memᴰ t w.refresh_tokens)
      → (reuse_token now version agent rows w ≡ (ok none, w)) ⊎ Reused now version agent rows w
  unfolding reuse_token
  reuse_token-cases [] stored = inl refl
  reuse_token-cases (t ∷ ts) stored = elim (Bool-cases (is_reusable now version agent t)) [
    | inl fits ↦
        let there = any-mem (has_id t.id) t w.refresh_tokens (stored t (Memᴰ.head refl)) in
        inr (record {
          row = t;
          listed = Memᴰ.head refl;
          reusable = fits;
          result = rw fits (rw (there (==_refl t.id)));
        })
    | inr other ↦ elim (reuse_token-cases ts (λ s m. stored s (Memᴰ.tail m))) [
      | inl e ↦ inl (rw other e)
      | inr r ↦ inr (record {
        row = r.row;
        listed = Memᴰ.tail r.listed;
        reusable = r.reusable;
        result = rw other r.result;
      })
    ]
  ]

-- The reused row is an active session.
reused_holds :
    (now : ℕ) (u : User) (agent : String) (w : World) (r : RefreshToken)
    → Memᴰ r w.refresh_tokens
    → (r.user_id == u.id) ≡ true
    → is_reusable now u.token_version agent r ≡ true
    → HoldsSession now u r.token (replace (has_id r.id) (as_used now) w.refresh_tokens)
reused_holds now u agent w r m own fits = record {
  row = as_used now r;
  stored = rw (==_refl r.id) at (mem-replace (has_id r.id) (as_used now) w.refresh_tokens r m);
  token_is = refl;
  owned = ground arith;
  current = ground arith;
  unrevoked = ground arith;
  in_time = ground arith;
}

module _ (sv : Services) (now : ℕ) (ctx : HttpContext) (u : User) where
  -- The world after `record_login`.
  abbrev pub after_record : World → World
  after_record w = record w {
    user_logins = w.user_logins ++ new_login now ctx u.id w.next_id ∷ [];
    next_id = w.next_id + 1;
    emitted = (record_login sv now ctx u w).1.emitted;
  }

  pub record_login_lem : (w : World) → record_login sv now ctx u w ≡ (ok tt, after_record w)
  unfolding record_login
  record_login_lem w = ground arith

  -- The world after the update of the user and the record of the login.
  abbrev pub after_login : World → World
  after_login w =
      after_record (record w { users = replace (user_has_id u.id) (as_seen now ctx.ip) w.users })

  module _ (email password : String) (w : World) where
    pub user_login_lem :
        (found : Option String) (token : String) (w₁ w₂ : World)
        → sv.find_first (email_is email) w.users ≡ some u
        → sv.compare password u.password ≡ true
        → reuse_token now u.token_version
            (text_or ctx.user_agent "Unknown")
            (sv.find_many (λ t. t.user_id == u.id) w.refresh_tokens)
            w
          ≡ (ok found, w₁)
        → session_token sv now ctx u found w₁ ≡ (ok token, w₂)
        → any (user_has_id u.id) w₂.users ≡ true
        → user_login sv now ctx email password w ≡ (ok (u, token), after_login w₂)
    unfolding user_login
    user_login_lem found token w₁ w₂ eu ep er es there = ground (
      arith,
      record_login_lem
          (record w₂ { users = replace (user_has_id u.id) (as_seen now ctx.ip) w₂.users }),
    )

    -- With the right password the run returns, stores a session and records the login.
    pub user_login_runs :
        sv.find_first (email_is email) w.users ≡ some u
        → sv.compare password u.password ≡ true
        → (token : String) × (w' : World) × (user_login sv now ctx email password w
            ≡ (ok (u, token), w'))
          × LoginRun now ctx u token w w'
    unfolding session_token
    user_login_runs eu ep =
        let agent : String = text_or ctx.user_agent "Unknown" in
        let mine = sv.find_many_sound (λ (t : RefreshToken). t.user_id == u.id) w.refresh_tokens in
        let there = any_found sv (email_is email) (user_has_id u.id) w.users u eu (==_refl u.id) in
        elim (reuse_token-cases now u.token_version agent w
          (sv.find_many (λ t. t.user_id == u.id) w.refresh_tokens) (λ t m. (mine t m).0)) [
            | inl e ↦
                let token = generate_secure_refresh_token sv now u in
                let row = new_session now ctx u.id u.token_version token w.next_id in
                let w₂ = record w {
                  refresh_tokens = w.refresh_tokens ++ row ∷ [];
                  next_id = w.next_id + 1;
                } in
                (
                  token,
                  after_login w₂,
                  user_login_lem none token w w₂ eu ep e refl there,
                  record {
                    holds = record {
                      row = row;
                      stored = Memᴰ.append_right w.refresh_tokens (Memᴰ.head refl);
                      token_is = refl;
                      owned = refl;
                      current = refl;
                      unrevoked = refl;
                      in_time = omega arith;
                    };
                    seen = refl;
                    login_id = w₂.next_id;
                    logged = refl;
                    kept_settings = refl;
                    kept_cookies = refl;
                  },
                )
            | inr r ↦
                let token = r.row.token in
                let w₂ = record w {
                  refresh_tokens = replace (has_id r.row.id) (as_used now) w.refresh_tokens;
                } in
                let (m, own) = mine r.row r.listed in
                (
                  token,
                  after_login w₂,
                  user_login_lem (some token) token w₂ w₂ eu ep r.result refl there,
                  record {
                    holds = reused_holds now u agent w r.row m own r.reusable;
                    seen = refl;
                    login_id = w₂.next_id;
                    logged = refl;
                    kept_settings = refl;
                    kept_cookies = refl;
                  },
                )
          ]
