-- ===== src/Privacy.antt =====
-- `PrivacyService` (src/privacy/privacy.service.ts) and its default settings
-- (src/privacy/constants/privacy-settings.constants.ts).
pub mod Settings
pub mod Merge
use auth_backend.Base.{
  ℕ, String, Bool, true, false, ◌+◌, ◌==◌, ltb, length, not, is_none, str_eq, ◌&&◌, if◌then◌else◌,
  Option, none, some,
}
use auth_backend.Model.{User, PrivacySettings}
use auth_backend.Model.Json.{Json, null, bool, str, num, arr, obj, nil, end, field, Fields}
use auth_backend.Action.{
  Exception, not_found, plain_error, type_error, Action, pure, gets, or_raise, raise_if, ◌>>=◌,
  ◌>>◌,
}
use auth_backend.Services.{Services}
use auth_backend.Store.{
  users_table, privacy_settings_table, create, update, delete, find_first, find_many,
}

abbrev pub default_privacy_settings : Json
default_privacy_settings = obj (
    field "profile" (obj (field "visibility" (str "PUBLIC") (field "activeStatus" (bool true) end)))
      (field "communication"
        (obj (
          field "messaging"
            (obj (
              field "allowMessages" (bool true) (
                field "allowMessagesFrom" (str "FRIENDS")
                  (field "messagePreview" (bool true) (field "readReceipts" (bool true) end)))))
            (field "notifications"
              (obj (field "securityAlerts" (bool true) (field "newsAlerts" (bool true) end))) end)))
        (field "security" (obj (field "loginAlerts" (bool true) end)) (
          field "data"
            (obj (
              field "anonyomousUsage" (bool true) (
                field "cookies"
                  (obj (
                    field "necessary" (bool true) (
                      field "preferences" (bool true)
                        (field "statistics" (bool false) (field "marketing" (bool false) end)))))
                  end)))
            (field "advertising"
              (obj (
                field "personalizedAds" (bool false) (
                  field "thirdPartyAds" (bool false)
                    (field "emailMarketing" (bool false) (field "interests" (arr nil) end)))))
              end)))))

-- `object[key] = value`.
abbrev pub set_field : String → Json → Fields → Fields
set_field key value end = field key value end
set_field key value (field k v fields) =
    if str_eq k key then field key value fields else field k v (set_field key value fields)

-- `{ ...first, ...second }`
abbrev pub spread : Fields → Fields → Fields
spread first end = first
spread first (field k v fields) = spread (set_field k v first) fields

abbrev pub field_of : String → Fields → Option Json
field_of key end = none
field_of key (field k v fields) = if str_eq k key then some v else field_of key fields

-- The fields of a value that is spread. The service stores objects alone, so the elements of an
-- array are not spread here.
abbrev pub fields_of : Json → Fields
fields_of (obj fields) = fields
fields_of _ = end

abbrev as_fields : Option Json → Fields
as_fields none = end
as_fields (some value) = fields_of value

-- `timestamps` with an undefined `lastReviewed` left out.
abbrev timestamps_of : String → Option Json → Json
timestamps_of now none = obj (field "lastUpdated" (str now) end)
timestamps_of now (some reviewed) =
    obj (field "lastUpdated" (str now) (field "lastReviewed" reviewed end))

-- The settings of a new row.
abbrev pub first_settings : String → Fields → Fields
first_settings now settings =
    set_field "version" (str "1.0")
      (set_field "timestamps" (timestamps_of now (some (str now))) settings)

-- The old settings with the new ones over them, each top field as a whole.
abbrev pub merged_settings : String → Fields → Fields → Fields
merged_settings now old new =
    set_field "timestamps"
      (timestamps_of now (field_of "lastReviewed" (as_fields (field_of "timestamps" old))))
      (spread old new)

abbrev is_null : Json → Bool
is_null null = true
is_null _ = false

abbrev pub user_is : ℕ → User → Bool
user_is i u = u.id == i

abbrev pub settings_of : ℕ → PrivacySettings → Bool
settings_of user_id s = s.user_id == user_id

-- The message names the id.
abbrev pub no_user : Exception
no_user = not_found "User with ID not found"

abbrev pub no_settings : Exception
no_settings = not_found "Privacy settings not found"

abbrev create_defaults : ℕ → Action (Unit {0})
create_defaults user_id = do
  create privacy_settings_table
      (λ i. record { id = i; user_id = user_id; settings = default_privacy_settings })
  pure tt

module _ (sv : Services) where
  -- The result, which no caller in the authentication services reads, is left out.
  unfoldable pub initialize_default_settings : ℕ → Action (Unit {0})
  initialize_default_settings user_id = do
    or_raise (← find_first sv users_table (user_is user_id)) no_user
    existing ← find_many sv privacy_settings_table (settings_of user_id)
    if ltb 0 (length existing) then pure tt else create_defaults user_id

  pub validate_user : ℕ → Action User
  validate_user user_id = do or_raise (← find_first sv users_table (user_is user_id)) no_user

  pub get_privacy_settings : ℕ → Action PrivacySettings
  get_privacy_settings user_id = do
    or_raise (← find_first sv privacy_settings_table (settings_of user_id)) no_settings

  pub delete_privacy_settings : ℕ → Action (Unit {0})
  unfolding validate_user
  delete_privacy_settings user_id = do
    validate_user user_id
    or_raise (← find_first sv privacy_settings_table (settings_of user_id)) no_settings
    delete privacy_settings_table (λ s. s.id == user_id)

  -- `now` is the present time as `toISOString` writes it.
  unfoldable pub create_privacy_settings : String → ℕ → Fields → Action PrivacySettings
  unfolding validate_user
  create_privacy_settings now user_id settings = do
    validate_user user_id
    existing ← find_first sv privacy_settings_table (settings_of user_id)
    raise_if (not (is_none existing)) (plain_error "Privacy settings already exist for this user")
    create privacy_settings_table
        (λ i. record { id = i; user_id = user_id; settings = obj (first_settings now settings) })

  -- Settings that are null have no field `timestamps` to read.
  unfoldable pub update_privacy_settings : String → ℕ → Fields → Action PrivacySettings
  unfolding validate_user
  update_privacy_settings now user_id new = do
    validate_user user_id
    e ← or_raise (← find_first sv privacy_settings_table (settings_of user_id)) no_settings
    raise_if (is_null e.settings) type_error
    let merged = obj (merged_settings now (fields_of e.settings) new)
    update privacy_settings_table (λ s. s.id == e.id && s.user_id == user_id)
        (λ s. record s { settings = merged })
    pure (record e { settings = merged })
