-- ===== src/Tests/Fixtures.antt =====
-- Services that meet the assumptions, and a small world.
mod Ordered
use auth_backend.Base.{
  leb, mem-reverse, reverse-mem, ◌+◌, ℕ, String, ◌≡◌, ◌≢◌, eq_iff, refl, Bool, true, false, Option,
  none, some, List, [], ◌∷◌, filter, mem-filter, filter-mem, str_eq, eq_refl, arith, Bool-cases,
  inl, inr, sym, ◌∙◌, if◌then◌else◌,
}
use mathlib.Core.List.Memᴰ
use mathlib.Core.List.{Memᴰ}
use auth_backend.Model.Ai.{AiTables}
use auth_backend.Model.{
  World, Chat, HttpContext, User, RefreshToken, Role, UserLogin, OauthClient, AuthorizationCode,
  PasswordReset, PrivacySettings, UserConsent, OauthToken, CacheCall, cache_set, cache_del,
  CacheKey, Cached, same_key,
}
use auth_backend.Action.{ok}
use auth_backend.Tests.Fixtures.Ordered.{
  ordered, ordered-mem, mem-ordered, ordered-IsDescending, ascending, length-filter-ascending,
  ascending-IsAscending,
}
use auth_backend.Services.{Services, Claims, access, refresh, reset_password, oauth_access}
use auth_backend.Privacy.{default_privacy_settings}
use auth_backend.Auth.Register.{blank_user}

module _ {R : Type 0} where
  abbrev first : (R → Bool) → List R → Option R
  first p [] = none
  first p (r ∷ rs) = elim (p r) [ true ↦ some r | false ↦ first p rs ]

  pub first-some :
      (p : R → Bool) (rows : List R) {r : R} → first p rows ≡ some r → Memᴰ r rows × (p r ≡ true)
  first-some p [] e = cc
  first-some p (x ∷ xs) {r} e = elim (Bool-cases (p x)) [
    | inl here ↦ let same : r ≡ x = ground arith in (Memᴰ.head same, rw same here)
    | inr later ↦ let (m, h) = first-some p xs (ground arith) in (Memᴰ.tail m, h)
  ]

  pub first-none :
      (p : R → Bool) (rows : List R) → first p rows ≡ none → (r : R) → Memᴰ r rows → p r ≡ false
  first-none p [] e r m = elim m [ ]
  first-none p (x ∷ xs) e r (Memᴰ.head same) = ground arith
  first-none p (x ∷ xs) e r (Memᴰ.tail m) = first-none p xs (ground arith) r m

-- Tokens and hashes that are easy to read.
abbrev sign : Claims → ℕ → String
sign (access i e r) now = "access"
sign (refresh i) now = "refresh"
sign (reset_password i) now = "reset"
sign (oauth_access i c s) now = "oauth"

abbrev verify : String → ℕ → Option Claims
verify token now = if str_eq token "refresh" then some (refresh 1) else none

-- A cache that keeps an entry for 600 units of time.
abbrev cached_at : List CacheCall → ℕ → CacheKey → Option Cached
cached_at [] now key = none
cached_at (cache_del gone ∷ calls) now key =
    let rest = cached_at calls now key in if same_key gone key then none else rest
cached_at (cache_set stored_at at value ∷ calls) now key =
    let rest = cached_at calls now key in
    if same_key at key then if leb now (stored_at + 600) then some value else none else rest

abbrev pub services : Services
services = record {
  find_first = λ p rows. first p rows;
  find_first_some = λ p rows e. first-some p rows e;
  find_first_none = λ p rows e r m. first-none p rows e r m;
  find_many = λ p rows. filter p rows;
  find_many_sound = λ p rows r m. mem-filter p rows r m;
  find_many_complete = λ p rows r m h. filter-mem p rows r m h;
  length-find_many = λ p rows. refl;
  find_ordered = λ p key rows. ordered key p rows;
  find_ordered_sound = λ p key rows r m. ordered-mem key p rows r m;
  find_ordered_complete = λ p key rows r m h. mem-ordered key p rows r m h;
  find_ordered-IsDescending = λ p key rows. ordered-IsDescending key p rows;
  find_ascending = λ p key rows. ascending key p rows;
  find_ascending_sound =
      λ p key rows r m. ordered-mem key p rows r (mem-reverse (ordered key p rows) m);
  find_ascending_complete =
      λ p key rows r m h. reverse-mem (ordered key p rows) (mem-ordered key p rows r m h);
  length-filter-find_ascending = λ p q key rows. length-filter-ascending key p q rows;
  find_ascending-IsAscending = λ p key rows. ascending-IsAscending key p rows;
  sign = sign;
  verify = verify;
  hash = λ password salt. password;
  compare = λ password hashed. str_eq password hashed;
  compare-hash = λ password salt. eq_refl password;
  verify_totp = λ code secret now. ok (str_eq code "123456");
  keyuri = λ user_name issuer secret. secret;
  qr_image = λ uri. uri;
  ServerResponse = ℕ;
  respond = λ code message. ok code;
  encrypt = λ content. content;
  decrypt = λ stored. ok stored;
  decrypt-encrypt = λ content. refl;
  cached = cached_at;
  cached-cache_del = λ calls now gone key miss. rw (miss, if◌then◌else◌) refl;
  date_time = λ s. if str_eq s "2000-01-01" then none else some s;
  to_lower_case = λ s. if str_eq s "Ann@x.org" then "ann@x.org" else s;
  cookie_domain = none;
}

abbrev pub ann : User
ann =
    let blank = blank_user 0 "ann@x.org" "pw" 1 in
    record blank { totp_secret = some "secret"; backup_codes = some "aa,bb"; role = Role.admin }

-- With two factors.
abbrev pub guarded_ann : User
guarded_ann = record ann { is_two_factor_enabled = true }

abbrev pub session : RefreshToken
session = record {
  id = 2;
  token = "old";
  user_id = 1;
  expires = 5000;
  token_version = 0;
  created = 0;
  created_by_ip = some "::1";
  user_agent = some "Firefox";
  device_name = none;
  revoked = none;
  revocation_reason = none;
  last_used = none;
}

abbrev pub seen_before : UserLogin
seen_before = record { id = 3; user_id = 1; ip = "::1"; user_agent = "Firefox"; created_at = 50 }

abbrev pub reset : PasswordReset
reset = record { id = 4; email = "ann@x.org"; token = "reset"; expires_at = 5000; used = false }

abbrev pub client : OauthClient
client = record {
  id = 5;
  user_id = 1;
  client_id = "app";
  client_secret = "s3cret";
  name = "App";
  description = none;
  redirect_uris = "https://app" ∷ [];
  allowed_scopes = [];
  privacy_policy_url = none;
  terms_of_service_url = none;
  logo_url = none;
}

abbrev pub code : AuthorizationCode
code = record {
  id = 6;
  code = "c0de";
  client_id = 5;
  user_id = 1;
  scope = [];
  redirect_uri = "https://app";
  used = false;
  expires_at = 5000;
}

abbrev pub consent : UserConsent
consent = record {
  id = 7;
  user_id = 1;
  client_id = 5;
  granted_scopes = [];
  revoked_at = none;
  created_at = 0;
}

abbrev pub oauth_token : OauthToken
oauth_token = record {
  id = 8;
  token = "oauth";
  type = "refresh_token";
  client_id = 5;
  user_id = 1;
  scope = [];
  expires_at = 5000;
  revoked_at = none;
}

abbrev pub settings : PrivacySettings
settings = record { id = 9; user_id = 1; settings = default_privacy_settings }

abbrev pub empty_chat : Chat
empty_chat = record {
  messages = [];
  message_reads = [];
  message_deletions = [];
  groups = [];
  group_members = [];
  group_messages = [];
  call_sessions = [];
  call_participants = [];
  push_subscriptions = [];
  cache = [];
}

abbrev pub no_ai : AiTables
no_ai = record {
  threads = [];
  thread_messages = [];
  projects = [];
  collaborators = [];
  project_files = [];
  file_versions = [];
  search_usages = [];
  model_pricings = [];
  user_memories = [];
  user_instructions = [];
}

-- A world with one row in each table but that of the logins.
abbrev pub world : World
world = record {
  users = ann ∷ [];
  refresh_tokens = session ∷ [];
  user_logins = [];
  user_events = [];
  password_resets = reset ∷ [];
  privacy_settings = settings ∷ [];
  oauth_clients = client ∷ [];
  authorization_codes = code ∷ [];
  oauth_tokens = oauth_token ∷ [];
  user_consents = consent ∷ [];
  next_id = 10;
  emitted = [];
  cookies = [];
  chat = empty_chat;
  agents = record { agents = []; agent_steps = []; agent_variables = []; agent_credentials = [] };
  ai = no_ai;
}

abbrev pub guarded_world : World
guarded_world = record world { users = guarded_ann ∷ [] }

-- A request of Ann's, with the cookie of her session.
abbrev pub context : HttpContext
context = record {
  refresh_cookie = some "old";
  user_agent = some "Firefox";
  cf_connecting_ip = none;
  cf_ipcountry = none;
  ip = "::1";
  user = some ann;
}

-- The rows of a table of one row are one.
pub only : {A : Type 0} {x r s : A} → Memᴰ r (x ∷ []) → Memᴰ s (x ∷ []) → r ≡ s
only m n = Memᴰ.eq_of_singleton m ∙ sym (Memᴰ.eq_of_singleton n)

pub different : (a b : String) → str_eq a b ≡ false → a ≢ b
different a b unequal same = ground (arith, unequal, (eq_iff a b).1 same)
