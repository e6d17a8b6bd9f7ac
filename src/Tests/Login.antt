-- ===== src/Tests/Login.antt =====
-- Logins and registrations.
use auth_backend.Base.{String, ◌≡◌, refl, true, Memᴰ, []}
use auth_backend.Model.{World, User}
use auth_backend.Action.{ok}
use auth_backend.Tests.Fixtures.{services, guarded_ann, world, guarded_world, context}
use auth_backend.Auth.Cookie.{save_cookie}
use auth_backend.Auth.Session.{access_claims_of}
use auth_backend.Auth.Login.{
  login, user_login, record_login, reuse_token, session_token, mfa_required, finish_login,
  grant_session,
}
use auth_backend.Auth.Login.Run.{HoldsSession}
use auth_backend.Auth.Login.Outcomes.{login-HoldsSession}
use auth_backend.Auth.Login.Gate.{login_asks_for_code}
use auth_backend.Auth.Register.{RegisterDto, RegisterReply, register, new_user}
use auth_backend.Auth.Register.Outcomes.{Registered, register-Registered}

login-HoldsSession_example :
    (u : User) × Memᴰ u world.users
    × (u.email ≡ "ann@x.org")
    × (services.compare "pw" u.password ≡ true)
    × ("access" ≡ access_claims_of u services 100)
    × HoldsSession 100 u "old" (login services 100 context "ann@x.org" "pw" world).1.refresh_tokens
unfolding login user_login reuse_token session_token record_login finish_login grant_session
    save_cookie
login-HoldsSession_example =
    login-HoldsSession services 100 context "ann@x.org" "pw" world "access" "old" refl

login_asks_for_code_example :
    ((login services 100 context "ann@x.org" "pw" guarded_world).0 ≡ ok mfa_required)
    × ((login services 100 context "ann@x.org" "pw" guarded_world).1.cookies ≡ [])
login_asks_for_code_example =
    login_asks_for_code services context 100 "ann@x.org" "pw" guarded_world guarded_ann refl refl
      refl refl

-- The email of a new user, and one of a user who is there.
abbrev form : String → RegisterDto
form email = record {
  email = email;
  password = "pw2";
  name = "Ann";
  username = "annie";
  birthdate = "2000-01-01T00:00:00Z";
  language = "en";
  timezone = "UTC";
}

abbrev empty_world : World
empty_world = record world { users = [] }

register-Registered_example :
    (r : RegisterReply) × ((register services 100 "salt" context (form "Ann@x.org") empty_world).0
      ≡ ok r)
    × (services.compare "pw2" (new_user services 100 "salt" (form "Ann@x.org") 10).password ≡ true)
    × Registered services 100 "salt" context (form "Ann@x.org") empty_world r
register-Registered_example =
    register-Registered services 100 "salt" context (form "Ann@x.org") empty_world
      "2000-01-01T00:00:00Z" refl (λ u m. elim m [ ])
