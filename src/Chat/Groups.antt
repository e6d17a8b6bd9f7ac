-- ===== src/Chat/Groups.antt =====
-- Groups: `createGroup`, `getUserGroups`, `addGroupMembers`, `removeGroupMembers`,
-- `getGroupDetails`, `sendGroupMessage` and `getGroupMessages` of
-- src/messaging/messaging.service.ts. The members that a reply shows beside its group are left out
-- of the replies: `details` is their list.
pub mod Run
pub mod Admins
pub mod Requests
pub mod Pages
use mathlib.Core.List.{reverse}
use auth_backend.Base.{
  ℕ, String, Bool, true, false, ◌&&◌, ◌||◌, not, ◌+◌, Option, none, some, List, [], ◌∷◌, map, any,
  all, filter, ◌==◌, if◌then◌else◌,
}
use auth_backend.Model.{
  World, HttpContext, User, Group, GroupMember, GroupRole, group_admin, member, GroupMessage,
  ShownGroupMessage, groups_key, group_messages_key, group_page_key, Cached, cached_groups,
  cached_group_messages, group_created, group_members_added, group_members_removed,
  group_message_sent,
}
use auth_backend.Action.{
  Exception, type_error, reference_violation, Action, pure, gets, or_raise, raise_if, lift, ◌>>=◌,
  ◌>>◌,
}
use auth_backend.Services.{Services}
use auth_backend.Store.{users_table, create, create_unique, find_first, find_many, emit}
use auth_backend.Chat.Store.{
  groups_table, group_members_table, group_messages_table, delete_many, create_many, refuse_if,
  contact_of, del_cache, set_cache, get_cache,
}
use auth_backend.Chat.Direct.{page_of, refuse_page, contact_or_gone}

abbrev pub same_group_role : GroupRole → GroupRole → Bool
same_group_role group_admin group_admin = true
same_group_role member member = true
same_group_role _ _ = false

abbrev pub is_member_of : ℕ → ℕ → GroupMember → Bool
is_member_of group_id user_id m = m.group_id == group_id && m.user_id == user_id

abbrev pub is_admin_of : ℕ → ℕ → GroupMember → Bool
is_admin_of group_id user_id m =
    m.group_id == group_id && m.user_id == user_id && same_group_role m.role group_admin

-- `GroupMember` is unique by group and user.
abbrev pub same_member : GroupMember → GroupMember → Bool
same_member m n = m.group_id == n.group_id && m.user_id == n.user_id

abbrev pub new_member : ℕ → GroupRole → ℕ → ℕ → GroupMember
new_member group_id role user_id i = record {
  id = i;
  group_id = group_id;
  user_id = user_id;
  role = role;
}

-- `[...new Set(ids)]`: each id once, where it stands first.
unfoldable pub unique_from : List ℕ → List ℕ → List ℕ
unique_from seen [] = []
unique_from seen (i ∷ is) = elim (any (λ j. j == i) seen) [
  | true ↦ unique_from seen is
  | false ↦ i ∷ unique_from (i ∷ seen) is
]

-- Some id is of no user.
abbrev pub names_stranger : List ℕ → World → Bool
names_stranger ids w = not (all (λ i. any (λ u. u.id == i) w.users) ids)

-- `createMany` of members: refused as a whole where an id is of no user.
abbrev pub add_members : ℕ → List ℕ → Action (Unit {0})
add_members group_id ids = do
  refuse_if (names_stranger ids)
  create_many group_members_table same_member (map (λ i. new_member group_id member i) ids)

-- A reply is a value, or `{ error }`.
pub data GroupReply (A : Type 0) : Type 0 where
  value : A → GroupReply A
  refused : String → GroupReply A

abbrev pub shown_as : Option User → GroupMessage → String → ShownGroupMessage
shown_as u m text = record {
  id = m.id;
  sender = contact_or_gone u;
  sender_id = m.sender_id;
  content = text;
  timestamp = m.timestamp;
}

-- A group with its members.
pub record Details : Type 0 where
  pub group : Group
  pub members : List GroupMember

abbrev pub new_group : ℕ → ℕ → String → Option String → ℕ → Group
new_group now created_by name description i = record {
  id = i;
  name = name;
  description = description;
  created_by = created_by;
  updated_at = now;
}

abbrev pub del_groups_of : List ℕ → Action (Unit {0})
del_groups_of [] = pure tt
del_groups_of (i ∷ is) = del_cache (groups_key i) >> del_groups_of is

-- The members that `removeGroupMembers` deletes.
abbrev pub is_removable : ℕ → List ℕ → GroupMember → Bool
is_removable group_id user_ids m =
    m.group_id == group_id
    && any (λ i. i == m.user_id) user_ids
    && not (same_group_role m.role group_admin)

module _ (sv : Services) (now : ℕ) where
  abbrev pub details_of : ℕ → Option Group → Action (Option Details)
  details_of i none = pure none
  details_of i (some g) = do
    ms ← find_many sv group_members_table (λ m. m.group_id == i)
    pure (some (record { group = g; members = ms }))

  unfoldable pub get_group_details : ℕ → Action (Option Details)
  get_group_details group_id = do
    g ← find_first sv groups_table (λ g. g.id == group_id)
    details_of group_id g

  unfoldable pub create_group :
      HttpContext → String → Option String → List ℕ → Action (Option Details)
  unfolding get_group_details unique_from
  create_group ctx name description members = do
    me ← or_raise ctx.user type_error
    g ← create groups_table (new_group now me.id name description)
    create_unique group_members_table same_member (new_member g.id group_admin me.id)
    add_members g.id (filter (λ i. not (i == me.id)) (unique_from [] members))
    details ← get_group_details g.id
    emit (group_created g.id)
    pure details

  abbrev pub groups_or_cached : ℕ → Option Cached → Action Cached
  groups_or_cached user_id (some c) = pure c
  groups_or_cached user_id none = do
    w ← gets (λ w. w)
    let mine =
        sv.find_ordered (λ g. any (is_member_of g.id user_id) w.chat.group_members)
          (λ g. g.updated_at) w.chat.groups
    set_cache now (groups_key user_id) (cached_groups mine)
    pure (cached_groups mine)

  unfoldable pub get_user_groups : ℕ → Action Cached
  get_user_groups user_id = do
    cached ← get_cache sv now (groups_key user_id)
    groups_or_cached user_id cached

  abbrev pub add_as : Option GroupMember → User → ℕ → List ℕ → Action (GroupReply (Option Details))
  add_as none me group_id user_ids = pure (refused "Only group admins can add members")
  add_as (some m) me group_id user_ids = do
    add_members group_id (unique_from [] user_ids)
    del_cache (groups_key me.id)
    emit (group_members_added group_id me.id (unique_from [] user_ids))
    details ← get_group_details group_id
    pure (value details)

  unfoldable pub add_group_members : HttpContext → ℕ → List ℕ → Action (GroupReply (Option Details))
  unfolding get_group_details
  add_group_members ctx group_id user_ids = do
    me ← or_raise ctx.user type_error
    membership ← find_first sv group_members_table (is_admin_of group_id me.id)
    add_as membership me group_id user_ids

  abbrev pub remove_as :
      Option GroupMember → User → ℕ → List ℕ → Action (GroupReply (Option Details))
  remove_as none me group_id user_ids = pure (refused "Only group admins can remove members")
  remove_as (some m) me group_id user_ids = do
    delete_many group_members_table (is_removable group_id user_ids)
    del_cache (groups_key me.id)
    del_groups_of user_ids
    emit (group_members_removed group_id me.id user_ids)
    details ← get_group_details group_id
    pure (value details)

  unfoldable pub remove_group_members :
      HttpContext → ℕ → List ℕ → Action (GroupReply (Option Details))
  unfolding get_group_details
  remove_group_members ctx group_id user_ids = do
    me ← or_raise ctx.user type_error
    membership ← find_first sv group_members_table (is_admin_of group_id me.id)
    remove_as membership me group_id user_ids

  abbrev new_group_message : ℕ → ℕ → String → ℕ → GroupMessage
  new_group_message group_id sender_id content i = record {
    id = i;
    group_id = group_id;
    sender_id = sender_id;
    content = content;
    timestamp = now;
  }

  abbrev pub send_as : Option GroupMember → User → ℕ → String → Action (GroupReply GroupMessage)
  send_as none me group_id content = pure (refused "You are not a member of this group")
  send_as (some m) me group_id content = do
    row ← create group_messages_table (new_group_message group_id me.id (sv.encrypt content))
    emit (group_message_sent group_id me.id content)
    del_cache (group_messages_key group_id)
    pure (value row)

  unfoldable pub send_group_message : HttpContext → ℕ → String → Action (GroupReply GroupMessage)
  send_group_message ctx group_id content = do
    me ← or_raise ctx.user type_error
    membership ← find_first sv group_members_table (is_member_of group_id me.id)
    send_as membership me group_id content

  unfoldable pub with_senders : List GroupMessage → Action (List ShownGroupMessage)
  with_senders [] = pure []
  with_senders (m ∷ ms) = do
    u ← find_first sv users_table (λ u. u.id == m.sender_id)
    text ← lift (sv.decrypt m.content)
    rest ← with_senders ms
    pure (shown_as u m text ∷ rest)

  abbrev pub messages_or_cached : ℕ → ℕ → ℕ → Option Cached → Action (GroupReply Cached)
  messages_or_cached group_id page_size page (some c) = pure (value c)
  messages_or_cached group_id page_size page none = do
    refuse_page page_size page
    w ← gets (λ w. w)
    let all = sv.find_ordered (λ m. m.group_id == group_id) (λ m. m.timestamp) w.chat.group_messages
    shown ← with_senders (page_of page_size page all)
    set_cache now (group_page_key group_id page page_size) (cached_group_messages (reverse shown))
    pure (value (cached_group_messages (reverse shown)))

  abbrev pub messages_as : Option GroupMember → ℕ → ℕ → ℕ → Action (GroupReply Cached)
  messages_as none group_id page_size page = pure (refused "You are not a member of this group")
  messages_as (some m) group_id page_size page = do
    cached ← get_cache sv now (group_page_key group_id page page_size)
    messages_or_cached group_id page_size page cached

  unfoldable pub get_group_messages : HttpContext → ℕ → ℕ → ℕ → Action (GroupReply Cached)
  unfolding with_senders
  get_group_messages ctx group_id page_size page = do
    me ← or_raise ctx.user type_error
    membership ← find_first sv group_members_table (is_member_of group_id me.id)
    messages_as membership group_id page_size page
