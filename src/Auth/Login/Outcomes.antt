-- ===== src/Auth/Login/Outcomes.antt =====
-- How `login` ends: refused with nothing changed, or with a stored session.
use auth_backend.Base.{
  ℕ, String, ◌≡◌, true, false, Memᴰ, some, Option-cases, Bool-cases, ◌⊎◌, inl, inr, arith, eq_iff,
}
use auth_backend.Model.{World, HttpContext, User}
use auth_backend.Action.{ok, err, succeeds, continue}
use auth_backend.Services.{Services}
use auth_backend.Auth.Session.{invalid_credentials, access_claims_of}
use auth_backend.Auth.Login.{logged_in, email_is, user_login, finish_login, login}
use auth_backend.Auth.Login.Run.{HoldsSession, LoginRun, user_login_runs}

-- A login whose password fits: the run of the handler, and the rest of `login`.
pub record Passed (sv : Services) (now : ℕ) (ctx : HttpContext) (email password : String)
    (w : World) (user : User) : Type 0 where
  pub token : String
  pub middle : World
  pub found : sv.find_first (email_is email) w.users ≡ some user
  pub fits : sv.compare password user.password ≡ true
  pub run : LoginRun now ctx user token w middle
  pub finish : login sv now ctx email password w ≡ finish_login sv now ctx user token middle

module _ (sv : Services) (now : ℕ) (ctx : HttpContext) (email password : String) (w : World) where
  login-eq-finish_login :
      (u : User) (token : String) (w' : World)
      → user_login sv now ctx email password w ≡ (ok (u, token), w')
      → login sv now ctx email password w ≡ finish_login sv now ctx u token w'
  unfolding login
  login-eq-finish_login u token w' ran = rw (ran, continue)

module _ (sv : Services) (now : ℕ) (ctx : HttpContext) (email password : String) (w : World) where
  -- Where the password fits no account of the address, the login is refused as invalid
  -- credentials, and nothing changes.
  pub login_refused :
      ((u : User) → Memᴰ u w.users → u.email ≡ email → sv.compare password u.password ≡ false)
      → login sv now ctx email password w ≡ (err invalid_credentials, w)
  unfolding login user_login
  login_refused wrong = elim (Option-cases (sv.find_first (email_is email) w.users)) [
    | inl missing ↦ ground arith
    | inr (u, found) ↦
        let (m, same) = sv.find_first_some (email_is email) w.users found in
        let refused = wrong u m ((eq_iff u.email email).0 same) in ground arith
  ]

  -- A login that returns had the password of an account of the address.
  login-password :
      succeeds (login sv now ctx email password w).0 ≡ true
      → (u : User) × Memᴰ u w.users × (u.email ≡ email) × (sv.compare password u.password ≡ true)
  unfolding login user_login
  login-password e = elim (Option-cases (sv.find_first (email_is email) w.users)) [
    | inl missing ↦ absurd (ground arith)
    | inr (u, found) ↦
        let (m, same) = sv.find_first_some (email_is email) w.users found in
        elim (Bool-cases (sv.compare password u.password)) [
          | inl fits ↦ (u, m, (eq_iff u.email email).0 same, fits)
          | inr wrong ↦ absurd (ground arith)
        ]
  ]

  pub login-Passed :
      (u : User)
      → sv.find_first (email_is email) w.users ≡ some u
      → sv.compare password u.password ≡ true
      → Passed sv now ctx email password w u
  login-Passed u found fits =
      let (token, w', ran, run) = user_login_runs sv now ctx u email password w found fits in
      record {
        token = token;
        middle = w';
        found = found;
        fits = fits;
        run = run;
        finish = login-eq-finish_login sv now ctx email password w u token w' ran;
      }

  -- The two ways: invalid credentials, or a run of the handler and then `finish_login`.
  pub login-cases :
      (login sv now ctx email password w ≡ (err invalid_credentials, w))
      ⊎ ((u : User) × Passed sv now ctx email password w u)
  unfolding login user_login
  login-cases = elim (Option-cases (sv.find_first (email_is email) w.users)) [
    | inl missing ↦ inl (ground arith)
    | inr (u, found) ↦ elim (Bool-cases (sv.compare password u.password)) [
      | inr wrong ↦ inl (ground arith)
      | inl fits ↦ inr (u, login-Passed u found fits)
    ]
  ]

  -- The last part of `login` leaves the sessions, the users and the logins alone.
  pub finish_login_keeps :
      (u : User) (token : String) (v : World)
      → let v' = (finish_login sv now ctx u token v).1 in
        (v'.refresh_tokens ≡ v.refresh_tokens)
        × (v'.users ≡ v.users)
        × (v'.user_logins ≡ v.user_logins)
  unfolding finish_login
  finish_login_keeps u token v = (ground arith, ground arith, ground arith)

  finish_login-eq-logged_in :
      (u : User) (token a t : String) (v : World)
      → (finish_login sv now ctx u token v).0 ≡ ok (logged_in a t)
      → (a ≡ access_claims_of u sv now) × (t ≡ token)
  unfolding finish_login
  finish_login-eq-logged_in u token a t v e = (ground arith, ground arith)

  -- The tokens of a login that hands them out: the access token is that of an account of the
  -- address whose password was given, and the refresh token is stored as an active session of it.
  pub login-HoldsSession :
      (a t : String)
      → (login sv now ctx email password w).0 ≡ ok (logged_in a t)
      → (u : User) × Memᴰ u w.users
        × (u.email ≡ email)
        × (sv.compare password u.password ≡ true)
        × (a ≡ access_claims_of u sv now)
        × HoldsSession now u t (login sv now ctx email password w).1.refresh_tokens
  login-HoldsSession a t e = elim login-cases [
    | inl refused ↦ absurd (ground arith)
    | inr (u, p) ↦
        let tokens = finish_login-eq-logged_in u p.token a t p.middle (rw p.finish at e) in
        let (m, same) = sv.find_first_some (email_is email) w.users p.found in
        let kept = (finish_login_keeps u p.token p.middle).0 in
        (
          u,
          m,
          (eq_iff u.email email).0 same,
          p.fits,
          tokens.0,
          rw (p.finish, kept, tokens.1) p.run.holds,
        )
  ]
