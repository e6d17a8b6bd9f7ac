-- ===== src/Model/Account.antt =====
-- The account rows: the models `User`, `RefreshToken`, `UserLogin`, `UserEvents`,
-- `EmailPasswordReset` and `UserPrivaySettings` of prisma/schema.prisma, with the enum of
-- src/auth/enums/roles.enum.ts. An id (a uuid, which the code only compares) is a number, and a
-- time is a number of milliseconds.
use auth_backend.Base.{ℕ, String, Bool, true, false, Option}
use auth_backend.Model.Json.{Json}

pub data Role : Type 0 where
  user premium moderator admin super_admin : Role

-- `a === b` on roles.
abbrev pub same_role : Role → Role → Bool
same_role user user = true
same_role premium premium = true
same_role moderator moderator = true
same_role admin admin = true
same_role super_admin super_admin = true
same_role _ _ = false

pub record User : Type 0 where
  pub id : ℕ
  pub email : String
  pub password : String
  pub full_name : Option String
  pub username : Option String
  pub birthdate : Option String
  pub language : Option String
  pub time_zone : Option String
  pub role : Role
  pub token_version : ℕ
  pub is_two_factor_enabled : Bool
  pub totp_secret : Option String
  pub backup_codes : Option String
  pub external_provider : Option String
  pub external_user_id : Option String
  pub is_external : Bool
  pub is_email_verified : Bool
  pub last_login : ℕ
  pub connecting_ip : Option String
  pub profile_picture : Option String
  pub created_at : ℕ

pub record RefreshToken : Type 0 where
  pub id : ℕ
  pub token : String
  pub user_id : ℕ
  pub expires : ℕ
  pub token_version : ℕ
  pub created : ℕ
  pub created_by_ip : Option String
  pub user_agent : Option String
  pub device_name : Option String
  pub revoked : Option ℕ
  pub revocation_reason : Option String
  pub last_used : Option ℕ

pub record UserLogin : Type 0 where
  pub id : ℕ
  pub user_id : ℕ
  pub ip : String
  pub user_agent : String
  pub created_at : ℕ

pub record UserEvent : Type 0 where
  pub id : ℕ
  pub user_id : ℕ
  pub event_type : String
  pub payload : Json

pub record PasswordReset : Type 0 where
  pub id : ℕ
  pub email : String
  pub token : String
  pub expires_at : ℕ
  pub used : Bool

pub record PrivacySettings : Type 0 where
  pub id : ℕ
  pub user_id : ℕ
  pub settings : Json
