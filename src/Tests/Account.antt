-- ===== src/Tests/Account.antt =====
-- Sessions, passwords, the second factor and the privacy settings.
use mathlib.Core.List.Memᴰ
use auth_backend.Base.{
  String, str_eq, false, ◌≡◌, refl, true, false, Memᴰ, some, [], ◌∷◌, includes, arith, ap,
}
use auth_backend.Base.Text.{split, join}
use auth_backend.Model.{World, User, RefreshToken, PasswordReset}
use auth_backend.Auth.Login.{new_session, generate_secure_refresh_token}
use auth_backend.Action.{ok, succeeds, err, bad_request}
use auth_backend.Tests.Fixtures.{settings, services, ann, world, context, only, different}
use auth_backend.Auth.Session.{
  find_user, invalid_credentials, logout, refresh_token, get_user_session_status, get_user_info,
  SessionStatus,
}
use auth_backend.Auth.Session.Logout.{refresh_token-logout}
use auth_backend.Auth.Session.Versions.{
  IsLive, reported_valid, get_user_session_status-IsLive, get_user_info_iff_valid,
}
use auth_backend.Auth.Mfa.{verify_mfa, codes_of}
use auth_backend.Auth.Mfa.Verify.{verify_mfa_uses_up}
use auth_backend.Model.Json.{Fields, str, obj, end, field}
use auth_backend.Privacy.{fields_of, default_privacy_settings, field_of, update_privacy_settings}
use auth_backend.Privacy.Merge.{or_else, last_of, update_privacy_settings-last_of}
use auth_backend.Auth.Password.{reset_password, change_password}
use auth_backend.Auth.Password.Reset.{reset_password_once}
use auth_backend.Auth.Password.Change.{change_password_ends_sessions}

refresh_token-logout_example :
    refresh_token services 300 (some "old") (logout services 100 context world).1
    ≡ (err invalid_credentials, (logout services 100 context world).1)
unfolding logout
refresh_token-logout_example =
    refresh_token-logout services 100 300 context world
      (λ r s m n e. ap (λ (t : RefreshToken). t.id) (only m n)) refl

abbrev live_status : SessionStatus
live_status = record { expires = 5000; valid = true }

reset_password_once_example :
    reset_password services 300 "reset" "d" "s"
      (reset_password services 100 "reset" "new" "salt" world).1
    ≡ (
      err (bad_request "Invalid token"),
      (reset_password services 100 "reset" "new" "salt" world).1,
    )
unfolding reset_password
reset_password_once_example =
    reset_password_once services 100 "reset" "new" "salt" world 300 "d" "s"
      (λ r s m n e. ap (λ (p : PasswordReset). p.id) (only m n)) refl

get_user_session_status-IsLive_example : IsLive 100 context world live_status
unfolding get_user_session_status
get_user_session_status-IsLive_example =
    get_user_session_status-IsLive services 100 context world live_status refl refl

get_user_info_iff_valid_example :
    succeeds (get_user_info services 100 (some "old") world).0
    ≡ reported_valid (get_user_session_status services 100 context world).0
get_user_info_iff_valid_example = get_user_info_iff_valid services 100 context world

-- Ann after a change of password.
abbrev newer_ann : User
newer_ann = record ann { token_version = 1 }

abbrev newer_world : World
newer_world = record world { users = newer_ann ∷ [] }

-- Ann once she has used the backup code "bb".
abbrev ann_after : User
ann_after = record ann { backup_codes = some "aa" }

verify_mfa_uses_up_example : includes (codes_of ann_after) "bb" ≡ false
unfolding verify_mfa split join
verify_mfa_uses_up_example =
    verify_mfa_uses_up services 100 context "ann@x.org" "pw" "bb" world
      (record { access_token = "access"; refresh_token = "refresh" }) ann ann_after
      (λ u v m n same. only m n) (different "bb" "" refl) refl refl refl (Memᴰ.head refl) refl

-- The session that the change has made.
abbrev renewed : RefreshToken
renewed = new_session 100 context 1 1 "refresh" 10

change_password_ends_sessions_example :
    (renewed.token ≡ generate_secure_refresh_token services 100 ann) × (renewed.created ≡ 100)
unfolding change_password find_user
change_password_ends_sessions_example =
    change_password_ends_sessions services 100 context "pw" "new" "salt" world ann
      (record ann { password = "new"; token_version = 1 }) renewed
      (λ r u m n own. rw (Memᴰ.eq_of_singleton m, Memᴰ.eq_of_singleton n) (omega arith)) refl refl
      (Memᴰ.head refl) refl (Memᴰ.tail (Memᴰ.head refl)) refl refl

-- Ann's settings with a second update.
abbrev default_fields : Fields
default_fields = fields_of default_privacy_settings

abbrev new_fields : Fields
new_fields = field "profile" (str "hidden") end

update_privacy_settings-last_of_example :
    (merged : Fields) × ((update_privacy_settings services "2025" 1 new_fields world).0
      ≡ ok (record settings { settings = obj merged }))
    × Memᴰ
        (record settings { settings = obj merged })
        (update_privacy_settings services "2025" 1 new_fields world).1.privacy_settings
    × ((key : String)
        → str_eq "timestamps" key ≡ false
        → field_of key merged ≡ or_else (last_of key new_fields) (field_of key default_fields))
update_privacy_settings-last_of_example =
    update_privacy_settings-last_of services "2025" 1 new_fields world ann settings default_fields
      refl refl refl
