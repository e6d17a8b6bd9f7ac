-- ===== src/Model/Effects.antt =====
-- What a handler does outside the database: the events that it emits (`EventEmitter2.emit`,
-- `PostHogService.captureEvent`, the `ip-location` queue) and the cookies that it sets.
use auth_backend.Base.{ℕ, String, Bool, Option, List}

pub data Emitted : Type 0 where
  auth_register : Option String → Option String → Emitted
  new_ip_login : Option String → Option String → String → String → Option ℕ → Emitted
  auth_forgot : Option String → String → String → Emitted
  auth_forgot_reset : Option String → String → String → Emitted
  captured : ℕ → String → Emitted
  user_name user_birthdate user_photo : ℕ → String → Option String → Emitted
  message_sent : ℕ → ℕ → String → Emitted
  group_created : ℕ → Emitted
  group_members_added group_members_removed : ℕ → ℕ → List ℕ → Emitted
  group_message_sent : ℕ → ℕ → String → Emitted
  call_initiated : ℕ → ℕ → List ℕ → Emitted
  participant_joined participant_left : ℕ → ℕ → Emitted
  ip_location_job : Option String → Option String → String → Emitted

-- The arguments of `res.cookie(name, value, options)`; `domain` is none for null and undefined.
pub record Cookie : Type 0 where
  pub name : String
  pub value : String
  pub http_only : Bool
  pub secure : Bool
  pub same_site : String
  pub path : String
  pub expires : Option ℕ
  pub max_age : Option ℕ
  pub domain : Option String
