-- ===== src/Privacy/Merge.antt =====
-- What `updatePrivacySettings` leaves under each key.
use auth_backend.Base.{
  ℕ, String, ◌≡◌, inl, inr, refl, sym, ap, ◌∙◌, Bool, true, false, Bool-cases, ◌&&◌, Option, none,
  some, str_eq, eq_iff, ◌==◌, ==_refl, if◌then◌else◌, Memᴰ,
}
use auth_backend.Model.{World, User, PrivacySettings}
use auth_backend.Model.Json.{Json, obj, end, field, Fields}
use auth_backend.Action.{ok}
use auth_backend.Services.{Services}
use auth_backend.Store.{replace}
use auth_backend.Store.Rows.{any_found, mem-replace}
use auth_backend.Privacy.{
  set_field, spread, field_of, merged_settings, user_is, settings_of, update_privacy_settings,
}

abbrev pub or_else : Option Json → Option Json → Option Json
or_else none b = b
or_else (some a) b = some a

-- The value that a literal with these fields has under a key: the last one.
abbrev pub last_of : String → Fields → Option Json
last_of key end = none
last_of key (field k v fields) =
    or_else (last_of key fields) (if str_eq k key then some v else none)

field_of-set_field :
    (key k : String) (v : Json) (fields : Fields)
    → field_of key (set_field k v fields) ≡ (if str_eq k key then some v else field_of key fields)
field_of-set_field key k v end = refl
field_of-set_field key k v (field i u fields) = of (field_of-set_field key k v fields)
  where
    of :
        field_of key (set_field k v fields) ≡ (if str_eq k key then some v else field_of key fields)
        → field_of key (set_field k v (field i u fields))
          ≡ (if str_eq k key then some v else field_of key (field i u fields))
    of rest = elim (Bool-cases (str_eq i k)) [
      | inl here ↦ elim (Bool-cases (str_eq k key)) [
        | inl hit ↦ rw (here, if◌then◌else◌, hit, if◌then◌else◌) refl
        | inr miss ↦ rw (here, if◌then◌else◌, (eq_iff i k).0 here, miss, if◌then◌else◌) refl
      ]
      | inr other ↦ elim (Bool-cases (str_eq k key)) [
        | inl hit ↦
            rw
              (
                other,
                if◌then◌else◌,
                rest,
                hit,
                if◌then◌else◌,
                ← (eq_iff k key).0 hit,
                other,
                if◌then◌else◌,
              )
              refl
        | inr miss ↦ rw (other, if◌then◌else◌, rest, miss, if◌then◌else◌) refl
      ]
    ]

or_else_assoc : (a b c : Option Json) → or_else (or_else a b) c ≡ or_else a (or_else b c)
or_else_assoc none b c = refl
or_else_assoc (some a) b c = refl

found_or :
    (found : Bool) (v : Json) (b : Option Json)
    → (if found then some v else b) ≡ or_else (if found then some v else none) b
found_or true v b = refl
found_or false v b = refl

field_of-spread :
    (key : String) (first second : Fields)
    → field_of key (spread first second) ≡ or_else (last_of key second) (field_of key first)
field_of-spread key first end = refl
field_of-spread key first (field k v fields) =
    field_of-spread key (set_field k v first) fields
    ∙ ap (or_else (last_of key fields))
        (field_of-set_field key k v first ∙ found_or (str_eq k key) v (field_of key first))
    ∙ sym (
        or_else_assoc (last_of key fields) (if str_eq k key then some v else none)
          (field_of key first))

abbrev hit_by : PrivacySettings → ℕ → PrivacySettings → Bool
hit_by e user_id s = s.id == e.id && s.user_id == user_id

abbrev with_settings : Fields → PrivacySettings → PrivacySettings
with_settings fields s = record s { settings = obj fields }

hits :
    (sv : Services) (user_id : ℕ) (w : World) (e : PrivacySettings)
    → sv.find_first (settings_of user_id) w.privacy_settings ≡ some e
    → hit_by e user_id e ≡ true
hits sv user_id w e found =
    rw (==_refl e.id, (sv.find_first_some (settings_of user_id) w.privacy_settings found).1) refl

updated :
    (sv : Services) (now : String) (user_id : ℕ) (new : Fields) (w : World) (u : User)
    (e : PrivacySettings) (old : Fields) (known : sv.find_first (user_is user_id) w.users ≡ some u)
    (found : sv.find_first (settings_of user_id) w.privacy_settings ≡ some e)
    (is_object : e.settings ≡ obj old)
    → update_privacy_settings sv now user_id new w ≡ (
      ok (with_settings (merged_settings now old new) e),
      record w {
        privacy_settings =
            replace
              (hit_by e user_id)
              (with_settings (merged_settings now old new))
              w.privacy_settings;
      },
    )
unfolding update_privacy_settings
updated sv now user_id new w u e old known found is_object =
    rw
      (
        known,
        found,
        is_object,
        any_found sv (settings_of user_id) (hit_by e user_id) w.privacy_settings e found
            (hits sv user_id w e found),
        if◌then◌else◌,
      )
      refl

-- When a user with stored settings updates them, the new settings are stored and returned: under
-- each key but `timestamps` stands the value that is given for it, or the old one if none is given.
pub update_privacy_settings-last_of :
    (sv : Services) (now : String) (user_id : ℕ) (new : Fields) (w : World) (u : User)
    (e : PrivacySettings) (old : Fields) (known : sv.find_first (user_is user_id) w.users ≡ some u)
    (found : sv.find_first (settings_of user_id) w.privacy_settings ≡ some e)
    (is_object : e.settings ≡ obj old)
    → (merged : Fields) × ((update_privacy_settings sv now user_id new w).0
        ≡ ok (record e { settings = obj merged }))
      × Memᴰ
          (record e { settings = obj merged })
          (update_privacy_settings sv now user_id new w).1.privacy_settings
      × ((key : String)
          → str_eq "timestamps" key ≡ false
          → field_of key merged ≡ or_else (last_of key new) (field_of key old))
update_privacy_settings-last_of sv now user_id new w u e old known found is_object =
    let both = updated sv now user_id new w u e old known found is_object in
    (
      merged_settings now old new,
      ap (λ p. p.0) both,
      rw both (
          rw (hits sv user_id w e found, if◌then◌else◌) at
            (mem-replace (hit_by e user_id) (with_settings (merged_settings now old new))
              w.privacy_settings e
              (sv.find_first_some (settings_of user_id) w.privacy_settings found).0)),
      λ key other.
          field_of-set_field key "timestamps" _ (spread old new)
          ∙ rw (other, if◌then◌else◌) (field_of-spread key old new),
    )
