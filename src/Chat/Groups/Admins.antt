-- ===== src/Chat/Groups/Admins.antt =====
-- What requests may do to the table of group members, and what that keeps.
use auth_backend.Base.{
  ℕ, ◌≡◌, Bool, true, false, not, List, [], ◌∷◌, ◌++◌, Option, any, filter, any-append, Bool-cases,
  inl, inr, arith, if◌then◌else◌,
}
use auth_backend.Model.{World, User, GroupMember}
use auth_backend.Action.{Action, type_error, or_raise, ◌>>=◌}
use auth_backend.Chat.Store.{create_each, create_new, group_members_table}
use auth_backend.Store.{create_unique}
use auth_backend.Action.Along.{IsAlong, bind-IsAlong, or_raise-IsAlong}
use auth_backend.Chat.Groups.{is_admin_of, is_removable, same_member}

-- What a request may do to the table: add rows that clash with none and are members only, drop
-- rows that are not of admins, or both, any number of times.
pub data Changes : List GroupMember → List GroupMember → Type 0 where
  same : (rows : List GroupMember) → Changes rows rows
  added :
      (rows : List GroupMember) (m : GroupMember) {after : List GroupMember}
      → any (same_member m) rows ≡ false
      → Changes (rows ++ m ∷ []) after
      → Changes rows after
  dropped :
      (group_id : ℕ) (user_ids : List ℕ) (rows : List GroupMember) {after : List GroupMember}
      → Changes (filter (λ m. not (is_removable group_id user_ids m)) rows) after
      → Changes rows after

module _ (group_id user_id : ℕ) where
  admin_kept :
      (test : GroupMember → Bool) (rows : List GroupMember)
      → ((m : GroupMember) → is_admin_of group_id user_id m ≡ true → test m ≡ true)
      → any (is_admin_of group_id user_id) rows ≡ true
      → any (is_admin_of group_id user_id) (filter test rows) ≡ true
  admin_kept test [] h yes_admin = yes_admin
  admin_kept test (m ∷ ms) h yes_admin = ground (arith, h m, admin_kept test ms h)

  -- An admin of a group stays one.
  pub Changes-admin :
      {rows after : List GroupMember}
      → Changes rows after
      → any (is_admin_of group_id user_id) rows ≡ true
      → any (is_admin_of group_id user_id) after ≡ true
  Changes-admin (same rows) is_admin = is_admin
  Changes-admin (added rows m free rest) is_admin =
      Changes-admin rest
        (ground (arith, any-append (is_admin_of group_id user_id) rows (m ∷ []), is_admin))
  Changes-admin (dropped g ids rows rest) is_admin =
      Changes-admin rest
        (admin_kept (λ m. not (is_removable g ids m)) rows (λ m h. ground arith) is_admin)

pub Changes-both :
    {rows mid after : List GroupMember} → Changes rows mid → Changes mid after → Changes rows after
Changes-both (same rows) d = d
Changes-both (added rows m free rest) d = added rows m free (Changes-both rest d)
Changes-both (dropped g ids rows rest) d = dropped g ids rows (Changes-both rest d)

-- The tables of two worlds.
abbrev pub MembersChange : World → World → Type 0
MembersChange w v = Changes w.chat.group_members v.chat.group_members

abbrev pub KeepsMembers : {A : Type 0} → Action A → Type 0
KeepsMembers m = IsAlong MembersChange m

pub bind_keeps :
    {A B : Type 0} {m : Action A} {f : A → Action B}
    → KeepsMembers m
    → ((a : A) → KeepsMembers (f a))
    → KeepsMembers (m >>= f)
bind_keeps =
    bind-IsAlong MembersChange (λ w. same w.chat.group_members) (λ w v u h k. Changes-both h k)

pub some_user : (user : Option User) → KeepsMembers (or_raise user type_error)
some_user user =
    or_raise-IsAlong MembersChange (λ w. same _) (λ w v u h k. Changes-both h k) user type_error

create_new_changes :
    (make : ℕ → GroupMember) (w : World)
    → MembersChange w (create_new group_members_table same_member make w)
create_new_changes make w =
    elim (Bool-cases (any (same_member (make w.next_id)) w.chat.group_members)) [
      | inl taken ↦ rw (taken, if◌then◌else◌) (same w.chat.group_members)
      | inr free ↦
          rw (free, if◌then◌else◌) (added w.chat.group_members (make w.next_id) free (same _))
    ]

pub create_unique_keeps :
    (make : ℕ → GroupMember) → KeepsMembers (create_unique group_members_table same_member make)
create_unique_keeps make = record {
  along = λ w. elim (Bool-cases (any (same_member (make w.next_id)) w.chat.group_members)) [
    | inl taken ↦ rw (taken, if◌then◌else◌) (same w.chat.group_members)
    | inr free ↦
        rw (free, if◌then◌else◌) (added w.chat.group_members (make w.next_id) free (same _))
  ];
}

pub create_each_changes :
    (makes : List (ℕ → GroupMember)) (w : World)
    → MembersChange w (create_each group_members_table same_member makes w)
create_each_changes [] w = same w.chat.group_members
create_each_changes (make ∷ makes) w =
    Changes-both (create_new_changes make w)
      (create_each_changes makes (create_new group_members_table same_member make w))

-- A part of a handler that leaves the table alone.
pub still_there :
    {A : Type 0} {m : Action A}
    → ((w : World) → (m w).1.chat.group_members ≡ w.chat.group_members)
    → KeepsMembers m
still_there {m = m} h = record { along = λ w. rw (h w) (same w.chat.group_members) }
