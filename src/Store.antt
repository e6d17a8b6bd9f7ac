-- ===== src/Store.antt =====
-- The writes of the Prisma client that the handlers make: `create`, `update`, `updateMany` and
-- `delete` on the tables of the world. `update` and `delete` throw when no row meets their
-- condition, and `create` throws when a unique column repeats.
pub mod Rows
use auth_backend.Base.{
  ℕ, ◌+◌, Bool, ◌&&◌, true, not, List, [], ◌∷◌, ◌++◌, any, filter, if◌then◌else◌, Option, String,
  str_eq, ◌==◌, ◌||◌,
}
use auth_backend.Model.{
  World, User, RefreshToken, UserLogin, UserEvent, PasswordReset, PrivacySettings, OauthClient,
  AuthorizationCode, OauthToken, UserConsent, Emitted, Cookie,
}
use auth_backend.Action.{
  Exception, unique_violation, record_missing, Result, ok, err, Action, gets, modify,
}
use auth_backend.Services.{Services}

-- The rows of one table, and how they are put back.
pub record Table (R : Type 0) : Type 0 where
  pub rows : World → List R
  pub put : List R → World → World

abbrev pub users_table : Table User
users_table = record { rows = λ w. w.users; put = λ rs w. record w { users = rs } }

abbrev pub refresh_tokens_table : Table RefreshToken
refresh_tokens_table = record {
  rows = λ w. w.refresh_tokens;
  put = λ rs w. record w { refresh_tokens = rs };
}

abbrev pub user_logins_table : Table UserLogin
user_logins_table = record {
  rows = λ w. w.user_logins;
  put = λ rs w. record w { user_logins = rs };
}

abbrev pub user_events_table : Table UserEvent
user_events_table = record {
  rows = λ w. w.user_events;
  put = λ rs w. record w { user_events = rs };
}

abbrev pub password_resets_table : Table PasswordReset
password_resets_table = record {
  rows = λ w. w.password_resets;
  put = λ rs w. record w { password_resets = rs };
}

abbrev pub privacy_settings_table : Table PrivacySettings
privacy_settings_table = record {
  rows = λ w. w.privacy_settings;
  put = λ rs w. record w { privacy_settings = rs };
}

abbrev pub oauth_clients_table : Table OauthClient
oauth_clients_table = record {
  rows = λ w. w.oauth_clients;
  put = λ rs w. record w { oauth_clients = rs };
}

abbrev pub authorization_codes_table : Table AuthorizationCode
authorization_codes_table = record {
  rows = λ w. w.authorization_codes;
  put = λ rs w. record w { authorization_codes = rs };
}

abbrev pub oauth_tokens_table : Table OauthToken
oauth_tokens_table = record {
  rows = λ w. w.oauth_tokens;
  put = λ rs w. record w { oauth_tokens = rs };
}

abbrev pub user_consents_table : Table UserConsent
user_consents_table = record {
  rows = λ w. w.user_consents;
  put = λ rs w. record w { user_consents = rs };
}

module _ {R : Type 0} where
  -- The rows after `updateMany`: `change` at each row that meets the condition.
  abbrev pub replace : (R → Bool) → (R → R) → List R → List R
  replace p change [] = []
  replace p change (r ∷ rs) = (if p r then change r else r) ∷ replace p change rs

  abbrev pub update_many : Table R → (R → Bool) → (R → R) → Action (Unit {0})
  update_many t p change = modify (λ w. t.put (replace p change (t.rows w)) w)

  abbrev pub update : Table R → (R → Bool) → (R → R) → Action (Unit {0})
  update t p change w =
      if any p (t.rows w)
      then (ok tt, t.put (replace p change (t.rows w)) w)
      else (err record_missing, w)

  abbrev pub delete : Table R → (R → Bool) → Action (Unit {0})
  delete t p w =
      if any p (t.rows w)
      then (ok tt, t.put (filter (λ r. not (p r)) (t.rows w)) w)
      else (err record_missing, w)

  -- `clash` is the condition of a unique constraint that the new row would break.
  abbrev pub create_unique : Table R → (R → R → Bool) → (ℕ → R) → Action R
  create_unique t clash make w =
      let row = make w.next_id in
      if any (clash row) (t.rows w)
      then (err unique_violation, w)
      else (ok row, t.put (t.rows w ++ row ∷ []) (record w { next_id = w.next_id + 1 }))

  abbrev pub create : Table R → (ℕ → R) → Action R
  create t make w =
      let row = make w.next_id in
      (ok row, t.put (t.rows w ++ row ∷ []) (record w { next_id = w.next_id + 1 }))

  module _ (sv : Services) where
    abbrev pub find_first : Table R → (R → Bool) → Action (Option R)
    find_first t p = gets (λ w. sv.find_first p (t.rows w))

    abbrev pub find_many : Table R → (R → Bool) → Action (List R)
    find_many t p = gets (λ w. sv.find_many p (t.rows w))

abbrev pub emit : Emitted → Action (Unit {0})
emit e = modify (λ w. record w { emitted = w.emitted ++ e ∷ [] })

-- `User.email` is unique.
abbrev pub same_email : User → User → Bool
same_email u v = str_eq u.email v.email

-- `OAuthClient.userId` and `OAuthClient.clientId` are unique.
abbrev pub same_client : OauthClient → OauthClient → Bool
same_client c d = c.user_id == d.user_id || str_eq c.client_id d.client_id

-- `AuthorizationCode.code` is unique.
abbrev pub same_code : AuthorizationCode → AuthorizationCode → Bool
same_code c d = str_eq c.code d.code
