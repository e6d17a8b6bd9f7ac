-- ===== src/Auth/Login/Gate.antt =====
-- The second factor: when `login` asks for a code.
use auth_backend.Base.{
  ℕ, String, ◌≡◌, ◌≤◌, ◌+◌, refl, Bool, true, false, List, [], ◌∷◌, ◌++◌, Memᴰ, some, arith, eq_iff,
  eq_refl, ==_refl, length, filter, length-filter-append, ◌∙◌, ap,
}
use auth_backend.Model.{World, HttpContext, User, UserLogin}
use auth_backend.Action.{Result, ok, err}
use auth_backend.Services.{Services}
use auth_backend.Store.{replace}
use auth_backend.Store.Rows.{replace-mem, mem-replace, find_first-eq-some}
use auth_backend.Auth.Cookie.{fourteen_days}
use auth_backend.Auth.Session.{user_has_id}
use auth_backend.Auth.Login.{
  LoginReply, mfa_required, logged_in, email_is, as_seen, new_login, is_recent_login, grant_session,
  finish_login, login,
}
use auth_backend.Auth.Login.Outcomes.{login-Passed, finish_login_keeps}

-- An email is that of one user (the unique column).
abbrev pub HasUniqueEmails : List User → Type 0
HasUniqueEmails users = (u v : User) → Memᴰ u users → Memᴰ v users → u.email ≡ v.email → u ≡ v

abbrev pub hands_out_tokens : Result LoginReply → Bool
hands_out_tokens (ok mfa_required) = false
hands_out_tokens (ok (logged_in a t)) = true
hands_out_tokens (err e) = false

module _ (sv : Services) (ctx : HttpContext) where
  -- How many of the logins count after one more login at `now`.
  recent_after :
      (now later : ℕ) (user_id i : ℕ) (rows : List UserLogin)
      → later ≤ now + fourteen_days
      → length
          (filter (is_recent_login sv later ctx user_id) (rows ++ new_login now ctx user_id i ∷ []))
        ≡ length (filter (is_recent_login sv later ctx user_id) rows) + 1
  recent_after now later user_id i rows h = ground (
    arith,
    length-filter-append (is_recent_login sv later ctx user_id) rows (new_login now ctx user_id i),
    eq_refl ctx.ip,
  )

  finish_login_asks :
      (now : ℕ) (u : User) (token : String) (v : World)
      → u.is_two_factor_enabled ≡ true
      → length (filter (is_recent_login sv now ctx u.id) v.user_logins) ≤ 1
      → finish_login sv now ctx u token v ≡ (ok mfa_required, v)
  unfolding finish_login
  finish_login_asks now u token v two few =
      ground (arith, sv.length-find_many (is_recent_login sv now ctx u.id) v.user_logins)

  finish_login_grants :
      (now : ℕ) (u : User) (token : String) (v : World)
      → 2 ≤ length (filter (is_recent_login sv now ctx u.id) v.user_logins)
      → finish_login sv now ctx u token v ≡ grant_session sv now ctx u token v
  unfolding finish_login
  finish_login_grants now u token v many =
      ground (arith, sv.length-find_many (is_recent_login sv now ctx u.id) v.user_logins)

  -- With two factors enabled and no login from the address in the last two weeks, the right
  -- password gets the demand for a code, and no cookie is set.
  pub login_asks_for_code :
      (now : ℕ) (email password : String) (w : World) (u : User)
      → sv.find_first (email_is email) w.users ≡ some u
      → sv.compare password u.password ≡ true
      → u.is_two_factor_enabled ≡ true
      → length (filter (is_recent_login sv now ctx u.id) w.user_logins) ≡ 0
      → ((login sv now ctx email password w).0 ≡ ok mfa_required)
        × ((login sv now ctx email password w).1.cookies ≡ w.cookies)
  login_asks_for_code now email password w u found fits two none_yet =
      let p = login-Passed sv now ctx email password w u found fits in
      let asked = finish_login_asks now u p.token p.middle two (
        rw p.run.logged
          (omega (arith, recent_after now now u.id p.run.login_id w.user_logins (omega arith)))) in
      rw (p.finish, asked) (refl, p.run.kept_cookies)

  grant_session_lem :
      (now : ℕ) (u : User) (token : String) (w : World)
      → ((v : User) × (sv.find_first (user_has_id u.id) w.users ≡ some v))
      → hands_out_tokens (grant_session sv now ctx u token w).0 ≡ true
  unfolding grant_session
  grant_session_lem now u token w (v, found) = ground arith

  -- The user of an email after a login of that user: the same account, seen at the address.
  found_again :
      (now : ℕ) (email : String) (users : List User) (u v : User)
      → HasUniqueEmails users
      → sv.find_first (email_is email) users ≡ some u
      → sv.find_first (email_is email) (replace (user_has_id u.id) (as_seen now ctx.ip) users)
        ≡ some v
      → v ≡ as_seen now ctx.ip u
  found_again now email users u v unique found again =
      let (m, same) = sv.find_first_some (email_is email) users found in
      let (n, same') = sv.find_first_some (email_is email) _ again in
      let (r, k, e) = replace-mem (user_has_id u.id) (as_seen now ctx.ip) users v n in
      let emails : r.email ≡ u.email =
        ground (arith, eq_iff u.email email, eq_iff r.email email, eq_iff v.email email) in
      let one = unique r u k m emails in ground (arith, ==_refl u.id)

  -- A login with the right password from an address with a login in the last two weeks hands out
  -- tokens: no code is asked for.
  login_from_known_address :
      (now : ℕ) (email password : String) (w : World) (u : User)
      → sv.find_first (email_is email) w.users ≡ some u
      → sv.compare password u.password ≡ true
      → 1 ≤ length (filter (is_recent_login sv now ctx u.id) w.user_logins)
      → hands_out_tokens (login sv now ctx email password w).0 ≡ true
  login_from_known_address now email password w u found fits known =
      let p = login-Passed sv now ctx email password w u found fits in
      let granted = finish_login_grants now u p.token p.middle (
        rw p.run.logged
          (omega (arith, recent_after now now u.id p.run.login_id w.user_logins (omega arith)))) in
      let (m, same) = sv.find_first_some (email_is email) w.users found in
      let there =
        rw (==_refl u.id) at (mem-replace (user_has_id u.id) (as_seen now ctx.ip) w.users u m) in
      rw (p.finish, granted)
        (grant_session_lem now u p.token p.middle (
          rw p.run.seen (
            find_first-eq-some sv (user_has_id u.id) _ (as_seen now ctx.ip u) there
              (==_refl u.id))))

  -- Whatever a first login with the right password came to, a second one from the same address
  -- within two weeks hands out tokens, also where two factors are enabled and no code was given.
  -- Condition: an email is that of one user.
  second_login_skips_code :
      (now later : ℕ) (email password : String) (w : World) (u : User)
      → HasUniqueEmails w.users
      → sv.find_first (email_is email) w.users ≡ some u
      → sv.compare password u.password ≡ true
      → later ≤ now + fourteen_days
      → hands_out_tokens (login sv later ctx email password (login sv now ctx email password w).1).0
        ≡ true
  second_login_skips_code now later email password w u unique found fits soon =
      let p = login-Passed sv now ctx email password w u found fits in
      let kept = finish_login_keeps sv now ctx email password w u p.token p.middle in
      let (m, same) = sv.find_first_some (email_is email) w.users found in
      let there =
        rw (==_refl u.id) at (mem-replace (user_has_id u.id) (as_seen now ctx.ip) w.users u m) in
      let (v, again) =
        find_first-eq-some sv (email_is email)
          (replace (user_has_id u.id) (as_seen now ctx.ip) w.users) (as_seen now ctx.ip u) there
          same in
      let e = found_again now email w.users u v unique found again in
      login_from_known_address later email password (login sv now ctx email password w).1
        (as_seen now ctx.ip u) (rw (p.finish, kept.1, p.run.seen) (again ∙ ap some e)) fits
        (rw (p.finish, kept.2, p.run.logged)
          (omega (arith, recent_after now later u.id p.run.login_id w.user_logins soon)))
