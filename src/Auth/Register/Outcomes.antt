-- ===== src/Auth/Register/Outcomes.antt =====
-- How `register` ends.
use mathlib.Core.List.Memᴰ
use auth_backend.Base.{
  ℕ, ◌+◌, String, ◌≡◌, ◌≢◌, refl, true, false, some, [], ◌∷◌, ◌++◌, Memᴰ, inl, inr, arith, eq_iff,
  ==_refl, any-eq-false, ap, sym, ◌∙◌,
}
use auth_backend.Model.{World, HttpContext, User}
use auth_backend.Action.{ok, err, conflict}
use auth_backend.Services.{Services}
use auth_backend.Store.{same_email}
use auth_backend.Store.Rows.{find_first-eq-some, find_first-eq-none}
use auth_backend.Auth.Session.{invalid_credentials, access_claims_of, user_has_id}
use auth_backend.Auth.Login.{generate_secure_refresh_token, new_session, login}
use auth_backend.Auth.Login.Run.{HoldsSession}
use auth_backend.Auth.Login.Outcomes.{login_refused}
use auth_backend.Auth.Register.{
  RegisterDto, RegisterReply, is_taken_by, new_user, register, public_part,
}

module _ (sv : Services) (now : ℕ) (salt : String) (ctx : HttpContext) (d : RegisterDto)
    (w : World) where
  -- Where a user has the lower-cased email or the name, the request is refused as a conflict and
  -- nothing changes.
  register_conflict :
      (u : User)
      → Memᴰ u w.users
      → is_taken_by (sv.to_lower_case d.email) d.username u ≡ true
      → register sv now salt ctx d w ≡ (err (conflict "Email or username is already in use"), w)
  unfolding register
  register_conflict u m taken =
      let (v, found) =
        find_first-eq-some sv (is_taken_by (sv.to_lower_case d.email) d.username) w.users u m
          taken in
      ground arith

  -- The user that is stored, and the session.
  pub record Registered (r : RegisterReply) : Type 0 where
    pub user : User
    pub made : user ≡ new_user sv now salt d w.next_id
    pub users_after : (register sv now salt ctx d w).1.users ≡ w.users ++ user ∷ []
    pub holds :
        HoldsSession now user r.refresh_token (register sv now salt ctx d w).1.refresh_tokens

  -- Where no user has the lower-cased email or the name, and the birthdate is a text that Prisma
  -- takes for a date and time, the request succeeds: a user of that email is added, whose password is
  -- the given one, and a session of the user is stored.
  pub register-Registered :
      (born : String)
      → sv.date_time d.birthdate ≡ some born
      → ((u : User) → Memᴰ u w.users → is_taken_by (sv.to_lower_case d.email) d.username u ≡ false)
      → (r : RegisterReply) × ((register sv now salt ctx d w).0 ≡ ok r)
        × (sv.compare d.password (new_user sv now salt d w.next_id).password ≡ true)
        × Registered r
  unfolding register
  register-Registered born dated free =
      let u = new_user sv now salt d w.next_id in
      let absent =
        find_first-eq-none sv (is_taken_by (sv.to_lower_case d.email) d.username) w.users free in
      let unclaimed = any-eq-false (same_email u) w.users (λ v m.
        let f = free v m in ground (arith, eq_iff u.email v.email, eq_iff v.email u.email)) in
      let (v, owner) =
        find_first-eq-some sv (user_has_id u.id) (w.users ++ u ∷ []) u
          (Memᴰ.append_right w.users (Memᴰ.head refl)) (==_refl u.id) in
      let token = generate_secure_refresh_token sv now u in
      let row = new_session now ctx u.id 0 token (w.next_id + 1) in
      let rows : (register sv now salt ctx d w).1.refresh_tokens ≡ w.refresh_tokens ++ row ∷ [] =
        ground arith in
      (
        record {
          user = public_part u;
          access_token = access_claims_of u sv now;
          refresh_token = token;
        },
        ground arith,
        sv.compare-hash d.password salt,
        record {
          user = u;
          made = refl;
          users_after = ground arith;
          holds = record {
            row = row;
            stored = rw rows (Memᴰ.append_right w.refresh_tokens (Memᴰ.head refl));
            token_is = refl;
            owned = refl;
            current = refl;
            unrevoked = refl;
            in_time = omega arith;
          };
        },
      )

  -- A user who registers with capitals in the email cannot log in with the email that was given:
  -- it is stored in lower case, and the login looks for it as given. Conditions: Prisma takes the
  -- birthdate, no user has
  -- the lower-cased email or the name, lower case changes the email, and no user has it as given.
  login-register_capitals :
      (later : ℕ) (born : String)
      → sv.date_time d.birthdate ≡ some born
      → ((u : User) → Memᴰ u w.users → is_taken_by (sv.to_lower_case d.email) d.username u ≡ false)
      → sv.to_lower_case d.email ≢ d.email
      → ((u : User) → Memᴰ u w.users → u.email ≢ d.email)
      → login sv later ctx d.email d.password (register sv now salt ctx d w).1
        ≡ (err invalid_credentials, (register sv now salt ctx d w).1)
  login-register_capitals later born dated free capitals others =
      let (r, done, fits, g) = register-Registered born dated free in
      login_refused sv later ctx d.email d.password (register sv now salt ctx d w).1 λ u m same.
        elim (Memᴰ.append_cases w.users (rw g.users_after at m)) [
          | inl old ↦ absurd (others u old same)
          | inr new ↦
              let e = Memᴰ.eq_of_singleton new ∙ g.made in
              absurd (capitals (ap (λ (v : User). v.email) (sym e) ∙ same))
        ]
