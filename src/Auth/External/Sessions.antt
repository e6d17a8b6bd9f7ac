-- ===== src/Auth/External/Sessions.antt =====
-- What a login by an external provider stores.
use auth_backend.Base.{
  ℕ, String, ◌≡◌, refl, Bool, true, false, List, [], ◌∷◌, Memᴰ, any, ◌≢◌, any-mem, map, ==_iff,
  Option-cases, inl, inr, arith, ◌==◌,
}
use auth_backend.Model.{World, HttpContext, User, RefreshToken}
use auth_backend.Action.{ok}
use auth_backend.Services.{Services}
use auth_backend.Privacy.{initialize_default_settings}
use auth_backend.Auth.Cookie.{save_cookie}
use auth_backend.Store.{replace}
use auth_backend.Auth.Session.{as_used, has_id}
use auth_backend.Auth.External.{
  ExternalUser, is_reusable_at, touch_active, login_existing, login_new,
}

module _ (sv : Services) (now : ℕ) where
  -- A login by an external provider that creates the user leaves the table of refresh tokens as it
  -- is: the token of the new session is not stored.
  login_new-refresh_tokens :
      (ctx : HttpContext) (e : ExternalUser) (drawn salt : String) (w : World)
      → (login_new sv now ctx e drawn salt w).1.refresh_tokens ≡ w.refresh_tokens
  unfolding login_new save_cookie initialize_default_settings
  login_new-refresh_tokens ctx e drawn salt w = elim (Option-cases e.full_name) [
    | inl missing ↦ ground arith
    | inr (name, named) ↦ ground arith
  ]

  abbrev pub token_texts : World → List String
  token_texts w = map (λ (t : RefreshToken). t.token) w.refresh_tokens

  map-replace :
      (p : RefreshToken → Bool) (rows : List RefreshToken)
      → map (λ (t : RefreshToken). t.token) (replace p (as_used now) rows)
        ≡ map (λ (t : RefreshToken). t.token) rows
  map-replace p [] = refl
  map-replace p (r ∷ rs) = ground (arith, map-replace p rs)

  touch_active-token_texts :
      (version : ℕ) (ip : String) (ts : List RefreshToken) (w : World)
      → token_texts (touch_active now version ip ts w).1 ≡ token_texts w
  unfolding touch_active
  touch_active-token_texts version ip [] w = refl
  touch_active-token_texts version ip (t ∷ ts) w =
      ground (
        arith,
        touch_active-token_texts version ip ts w,
        map-replace (has_id t.id) w.refresh_tokens,
      )

  touch_active-found :
      (version : ℕ) (ip : String) (ts : List RefreshToken) (w : World)
      → any (is_reusable_at now version ip) ts ≡ true
      → (touch_active now version ip ts w).0 ≢ ok false
  unfolding touch_active
  touch_active-found version ip [] w h = absurd (ground arith)
  touch_active-found version ip (t ∷ ts) w h = ground (arith, touch_active-found version ip ts w)

  -- A login by an external provider of a user who has an active token at the address leaves the
  -- texts of the stored tokens as they are: no new token is stored.
  login_existing-token_texts :
      (ctx : HttpContext) (u : User) (t : RefreshToken) (w : World)
      → Memᴰ t w.refresh_tokens
      → t.user_id ≡ u.id
      → is_reusable_at now u.token_version ctx.ip t ≡ true
      → token_texts (login_existing sv now ctx u w).1 ≡ token_texts w
  unfolding login_existing save_cookie
  login_existing-token_texts ctx u t w listed of_user active =
      let test : RefreshToken → Bool = λ s. s.user_id == u.id in
      let tokens : List RefreshToken = sv.find_many test w.refresh_tokens in
      let found : Memᴰ t tokens =
        sv.find_many_complete test w.refresh_tokens t listed
          (ground (arith, ==_iff t.user_id u.id)) in
      let reusable = any-mem (is_reusable_at now u.token_version ctx.ip) t tokens found active in
      ground (
        arith,
        touch_active-token_texts u.token_version ctx.ip tokens w,
        touch_active-found u.token_version ctx.ip tokens w reusable,
      )
