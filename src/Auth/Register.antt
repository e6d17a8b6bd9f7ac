-- ===== src/Auth/Register.antt =====
-- `UserRegisterHandler` (src/auth/handlers/user-register.handler.ts), which `register` of
-- src/auth/auth.service.ts runs.
pub mod Outcomes
use auth_backend.Base.{
  ℕ, String, Bool, true, false, ◌||◌, Option, none, some, str_eq, same_text, is_none, not,
}
use auth_backend.Model.{HttpContext, User, Role, auth_register}
use auth_backend.Action.{
  Exception, conflict, invalid_date, Action, pure, gets, raise_if, ◌>>=◌, ◌>>◌,
}
use auth_backend.Services.{Services}
use auth_backend.Store.{
  users_table, refresh_tokens_table, user_logins_table, create, create_unique, same_email,
  find_first, emit,
}
use auth_backend.Privacy.{initialize_default_settings}
use auth_backend.Auth.Session.{access_claims_of}
use auth_backend.Auth.Login.{generate_secure_refresh_token, new_session, new_login}

-- The body of the request (src/auth/dtos/register.dto.ts), which `UserRegisterCommand` carries.
pub record RegisterDto : Type 0 where
  pub email : String
  pub password : String
  pub name : String
  pub username : String
  pub birthdate : String
  pub language : String
  pub timezone : String

-- A user without `password`, `totpSecret` and `tokenVersion`.
pub record PublicUser : Type 0 where
  pub id : ℕ
  pub email : String
  pub full_name : Option String
  pub username : Option String
  pub birthdate : Option String
  pub language : Option String
  pub time_zone : Option String
  pub role : Role
  pub is_two_factor_enabled : Bool
  pub backup_codes : Option String
  pub external_provider : Option String
  pub external_user_id : Option String
  pub is_external : Bool
  pub is_email_verified : Bool
  pub last_login : ℕ
  pub connecting_ip : Option String
  pub profile_picture : Option String
  pub created_at : ℕ

pub record RegisterReply : Type 0 where
  pub user : PublicUser
  pub access_token : String
  pub refresh_token : String

abbrev pub public_part : User → PublicUser
public_part u = record {
  id = u.id;
  email = u.email;
  full_name = u.full_name;
  username = u.username;
  birthdate = u.birthdate;
  language = u.language;
  time_zone = u.time_zone;
  role = u.role;
  is_two_factor_enabled = u.is_two_factor_enabled;
  backup_codes = u.backup_codes;
  external_provider = u.external_provider;
  external_user_id = u.external_user_id;
  is_external = u.is_external;
  is_email_verified = u.is_email_verified;
  last_login = u.last_login;
  connecting_ip = u.connecting_ip;
  profile_picture = u.profile_picture;
  created_at = u.created_at;
}

-- The defaults of the model `User` of prisma/schema.prisma.
abbrev pub blank_user : ℕ → String → String → ℕ → User
blank_user now email password i = record {
  id = i;
  email = email;
  password = password;
  full_name = none;
  username = none;
  birthdate = none;
  language = none;
  time_zone = none;
  role = Role.user;
  token_version = 0;
  is_two_factor_enabled = false;
  totp_secret = none;
  backup_codes = none;
  external_provider = none;
  external_user_id = none;
  is_external = false;
  is_email_verified = false;
  last_login = now;
  connecting_ip = none;
  profile_picture = none;
  created_at = now;
}

abbrev pub is_taken_by : String → String → User → Bool
is_taken_by email username u = str_eq u.email email || same_text u.username (some username)

module _ (sv : Services) (now : ℕ) (salt : String) where
  abbrev pub new_user : RegisterDto → ℕ → User
  new_user d i =
      let blank = blank_user now (sv.to_lower_case d.email) (sv.hash d.password salt) i in
      record blank {
        full_name = some d.name;
        username = some d.username;
        birthdate = sv.date_time d.birthdate;
        language = some d.language;
        time_zone = some d.timezone;
      }

  unfoldable pub register : HttpContext → RegisterDto → Action RegisterReply
  unfolding initialize_default_settings
  register ctx d = do
    existing ← find_first sv users_table (is_taken_by (sv.to_lower_case d.email) d.username)
    raise_if (not (is_none existing)) (conflict "Email or username is already in use")
    raise_if (is_none (sv.date_time d.birthdate)) invalid_date
    u ← create_unique users_table same_email (new_user d)
    let refresh_token = generate_secure_refresh_token sv now u
    create refresh_tokens_table (new_session now ctx u.id u.token_version refresh_token)
    create user_logins_table (new_login now ctx u.id)
    emit (auth_register u.full_name (some u.email))
    initialize_default_settings sv u.id
    pure (record {
      user = public_part u;
      access_token = access_claims_of u sv now;
      refresh_token = refresh_token;
    })
