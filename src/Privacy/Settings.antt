-- ===== src/Privacy/Settings.antt =====
-- When default privacy settings are written, and which row a deletion takes.
use auth_backend.Base.{
  ℕ, ◌≡◌, ◌≢◌, false, Memᴰ, any, any-eq-false, Option-cases, inl, inr, arith, ◌==◌,
}
use auth_backend.Model.{World, PrivacySettings}
use auth_backend.Action.{ok}
use auth_backend.Services.{Services}
use auth_backend.Privacy.{user_is, settings_of, delete_privacy_settings}

module _ (sv : Services) where
  -- Deletion of a user's settings fails where no row of settings has the id of the user as its
  -- own id, and changes nothing then, whatever settings the user has.
  delete_privacy_settings_fails :
      (user_id : ℕ) (w : World)
      → ((s : PrivacySettings) → Memᴰ s w.privacy_settings → (s.id == user_id) ≡ false)
      → ((delete_privacy_settings sv user_id w).0 ≢ ok tt)
        × ((delete_privacy_settings sv user_id w).1 ≡ w)
  unfolding delete_privacy_settings
  delete_privacy_settings_fails user_id w other =
      let none_is : any (λ (s : PrivacySettings). s.id == user_id) w.privacy_settings ≡ false =
        any-eq-false (λ s. s.id == user_id) w.privacy_settings other in
      elim (Option-cases (sv.find_first (user_is user_id) w.users)) [
        | inl missing ↦ (ground arith, ground arith)
        | inr (u, found) ↦
            elim (Option-cases (sv.find_first (settings_of user_id) w.privacy_settings)) [
              | inl missing ↦ (ground arith, ground arith)
              | inr (s, is_found) ↦ (ground arith, ground arith)
            ]
      ]
