-- ===== src/Auth/Profile.antt =====
-- The profile of a user: `ChangeFullNameHandler`, `ChangeBirthdateHandler` and
-- `ChangeProfilePictureHandler` (src/auth/handlers). The event reads the old value from the row
-- that the update returned, which has the new one.
use auth_backend.Base.{ℕ, String, Bool, ◌==◌, some, is_none}
use auth_backend.Model.{User, user_name, user_birthdate, user_photo}
use auth_backend.Action.{Action, invalid_date, raise_if, ◌>>◌, pure}
use auth_backend.Services.{Services}
use auth_backend.Store.{users_table, update, emit}

abbrev is_user : ℕ → User → Bool
is_user user_id u = u.id == user_id

unfoldable pub change_full_name : ℕ → String → Action String
change_full_name user_id new_name = do
  update users_table (is_user user_id) (λ u. record u { full_name = some new_name })
  emit (user_name user_id new_name (some new_name))
  pure "Name changed successfully"

unfoldable pub change_birthdate : Services → ℕ → String → Action String
change_birthdate sv user_id new_birthdate = do
  raise_if (is_none (sv.date_time new_birthdate)) invalid_date
  update users_table (is_user user_id) (λ u. record u { birthdate = sv.date_time new_birthdate })
  emit (user_birthdate user_id new_birthdate (sv.date_time new_birthdate))
  pure "Birthdate changed successfully"

unfoldable pub change_profile_picture : ℕ → String → Action String
change_profile_picture user_id new_photo = do
  update users_table (is_user user_id) (λ u. record u { profile_picture = some new_photo })
  emit (user_photo user_id new_photo (some new_photo))
  pure "Profile picture changed successfully"
