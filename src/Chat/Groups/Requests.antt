-- ===== src/Chat/Groups/Requests.antt =====
-- Every request about groups, and every run of them, keeps the admins.
use mathlib.Core.List.{reverse}
use auth_backend.Base.{
  ℕ, String, ◌≡◌, refl, true, not, List, [], ◌∷◌, map, Option, none, some, any, filter, ◌==◌,
}
use auth_backend.Model.{
  World, HttpContext, User, Group, GroupMember, group_admin, member, group_created, groups_key,
  group_page_key, GroupMessage, ShownGroupMessage, Cached, cached_group_messages,
  group_members_added, group_members_removed,
}
use auth_backend.Action.{Action, type_error, or_raise, pure, lift, gets, ◌>>◌}
use auth_backend.Services.{Services}
use auth_backend.Chat.Store.{
  group_members_table, groups_table, refuse_if, get_cache, set_cache, del_cache, delete_many,
}
use auth_backend.Store.{create_unique, find_first, create, users_table, emit}
use auth_backend.Chat.Direct.{page_of, refuse_page}
use auth_backend.Chat.Groups.{
  is_admin_of, is_member_of, is_removable, same_member, new_member, new_group, names_stranger,
  unique_from, create_group, get_user_groups, add_group_members, remove_group_members,
  send_group_message, get_group_messages, get_group_details, del_groups_of, with_senders,
  details_of, shown_as, GroupReply, add_members, add_as, remove_as, send_as, messages_as,
  messages_or_cached, groups_or_cached, value,
}
use auth_backend.Chat.Groups.Run.{
  GroupStep, creates, lists, adds, removes, sends, reads, GroupRun, stop, next,
}
use auth_backend.Chat.Groups.Admins.{
  same, dropped, Changes-admin, Changes-both, MembersChange, KeepsMembers, bind_keeps, some_user,
  create_unique_keeps, create_each_changes, still_there,
}

module _ (sv : Services) (now : ℕ) where
  add_members_keeps : (group_id : ℕ) (ids : List ℕ) → KeepsMembers (add_members group_id ids)
  add_members_keeps group_id ids =
      bind_keeps {m = refuse_if (names_stranger ids)} (still_there (λ w. refl))
        (λ t. record { along = create_each_changes (map (λ i. new_member group_id member i) ids) })

  details_keeps : (group_id : ℕ) → KeepsMembers (get_group_details sv now group_id)
  unfolding get_group_details
  details_keeps group_id =
      bind_keeps {m = find_first sv groups_table (λ g. g.id == group_id)} (still_there (λ w. refl))
        of
    where
      of : (o : Option Group) → KeepsMembers (details_of sv now group_id o)
      of none = still_there (λ w. refl)
      of (some g) = still_there (λ w. refl)

  create_group-KeepsMembers :
      (ctx : HttpContext) (name : String) (description : Option String) (members : List ℕ)
      → KeepsMembers (create_group sv now ctx name description members)
  unfolding create_group
  create_group-KeepsMembers ctx name description members =
      bind_keeps {m = or_raise ctx.user type_error} (some_user ctx.user) (λ me.
        bind_keeps {m = create groups_table (new_group now me.id name description)}
          (still_there (λ w. refl))
          (λ g.
            bind_keeps
              {m = create_unique group_members_table same_member
                (new_member g.id group_admin me.id)}
              (create_unique_keeps _)
              (λ r.
                bind_keeps
                  {m = add_members g.id (filter (λ i. not (i == me.id)) (unique_from [] members))}
                  (add_members_keeps _ _)
                  (λ t.
                    bind_keeps {m = get_group_details sv now g.id} (details_keeps _)
                      (λ d. still_there {m = emit (group_created g.id) >> pure d} (λ w. refl))))))

  add_group_members-KeepsMembers :
      (ctx : HttpContext) (group_id : ℕ) (user_ids : List ℕ)
      → KeepsMembers (add_group_members sv now ctx group_id user_ids)
  unfolding add_group_members
  add_group_members-KeepsMembers ctx group_id user_ids = bind_keeps (some_user ctx.user) (λ me.
      bind_keeps {m = find_first sv group_members_table (is_admin_of group_id me.id)}
        (still_there (λ w. refl)) (λ o. by_role o me))
    where
      by_role :
          (o : Option GroupMember) (me : User) → KeepsMembers (add_as sv now o me group_id user_ids)
      by_role none me = still_there (λ w. refl)
      by_role (some m) me =
          bind_keeps {m = add_members group_id (unique_from [] user_ids)} (add_members_keeps _ _)
            (λ t. bind_keeps {m = del_cache (groups_key me.id)} (still_there (λ w. refl)) (λ t.
              bind_keeps {m = emit (group_members_added group_id me.id (unique_from [] user_ids))}
                (still_there (λ w. refl))
                (λ t.
                  bind_keeps {m = get_group_details sv now group_id} (details_keeps group_id)
                    (λ d. still_there {m = pure (value d)} (λ w. refl)))))

  remove_group_members-KeepsMembers :
      (ctx : HttpContext) (group_id : ℕ) (user_ids : List ℕ)
      → KeepsMembers (remove_group_members sv now ctx group_id user_ids)
  unfolding remove_group_members
  remove_group_members-KeepsMembers ctx group_id user_ids = bind_keeps (some_user ctx.user) (λ me.
      bind_keeps {m = find_first sv group_members_table (is_admin_of group_id me.id)}
        (still_there (λ w. refl)) (λ o. by_role o me))
    where
      cached : (ids : List ℕ) → KeepsMembers (del_groups_of ids)
      cached [] = still_there (λ w. refl)
      cached (i ∷ is) =
          bind_keeps {m = del_cache (groups_key i)} (still_there (λ w. refl)) (λ t. cached is)

      by_role :
          (o : Option GroupMember) (me : User)
          → KeepsMembers (remove_as sv now o me group_id user_ids)
      by_role none me = still_there (λ w. refl)
      by_role (some m) me =
          bind_keeps {m = delete_many group_members_table (is_removable group_id user_ids)}
            (record { along = λ w. dropped group_id user_ids _ (same _) })
            (λ t. bind_keeps {m = del_cache (groups_key me.id)} (still_there (λ w. refl)) (λ t.
              bind_keeps {m = del_groups_of user_ids} (cached user_ids) (λ t.
                bind_keeps {m = emit (group_members_removed group_id me.id user_ids)}
                  (still_there (λ w. refl))
                  (λ t.
                    bind_keeps {m = get_group_details sv now group_id} (details_keeps group_id)
                      (λ d. still_there {m = pure (value d)} (λ w. refl))))))

  get_user_groups-KeepsMembers : (user_id : ℕ) → KeepsMembers (get_user_groups sv now user_id)
  unfolding get_user_groups
  get_user_groups-KeepsMembers user_id =
      bind_keeps {m = get_cache sv now (groups_key user_id)} (still_there (λ w. refl)) found
    where
      found : (c : Option Cached) → KeepsMembers (groups_or_cached sv now user_id c)
      found none = still_there (λ w. refl)
      found (some c) = still_there (λ w. refl)

  send_group_message-KeepsMembers :
      (ctx : HttpContext) (group_id : ℕ) (content : String)
      → KeepsMembers (send_group_message sv now ctx group_id content)
  unfolding send_group_message
  send_group_message-KeepsMembers ctx group_id content = bind_keeps (some_user ctx.user) (λ me.
      bind_keeps {m = find_first sv group_members_table (is_member_of group_id me.id)}
        (still_there (λ w. refl)) (λ o. by_role o me))
    where
      by_role :
          (o : Option GroupMember) (me : User) → KeepsMembers (send_as sv now o me group_id content)
      by_role none me = still_there (λ w. refl)
      by_role (some m) me = still_there (λ w. refl)

  with_senders_keeps : (ms : List GroupMessage) → KeepsMembers (with_senders sv now ms)
  unfolding with_senders
  with_senders_keeps [] = still_there (λ w. refl)
  with_senders_keeps (m ∷ ms) =
      bind_keeps {m = find_first sv users_table (λ u. u.id == m.sender_id)}
        (still_there (λ w. refl))
        (λ u. bind_keeps {m = lift (sv.decrypt m.content)} (still_there (λ w. refl)) (λ text.
          bind_keeps {m = with_senders sv now ms} (with_senders_keeps ms)
            (λ rest. still_there {m = pure (shown_as u m text ∷ rest)} (λ w. refl))))

  get_group_messages-KeepsMembers :
      (ctx : HttpContext) (group_id page_size page : ℕ)
      → KeepsMembers (get_group_messages sv now ctx group_id page_size page)
  unfolding get_group_messages with_senders
  get_group_messages-KeepsMembers ctx group_id page_size page =
      bind_keeps (some_user ctx.user) (λ me.
        bind_keeps {m = find_first sv group_members_table (is_member_of group_id me.id)}
          (still_there (λ w. refl)) by_role)
    where
      keep_page : List ShownGroupMessage → Action (GroupReply Cached)
      keep_page shown = do
        set_cache now (group_page_key group_id page page_size)
            (cached_group_messages (reverse shown))
        pure (value (cached_group_messages (reverse shown)))

      found :
          (c : Option Cached) → KeepsMembers (messages_or_cached sv now group_id page_size page c)
      found (some c) = still_there (λ w. refl)
      found none = bind_keeps {m = refuse_page page_size page} (still_there (λ w. refl)) (λ t.
          bind_keeps {m = gets (λ w. w)} (still_there (λ w. refl)) (λ w.
            bind_keeps
              {m = with_senders sv now (
                page_of page_size page (
                  sv.find_ordered (λ m. m.group_id == group_id) (λ m. m.timestamp)
                    w.chat.group_messages))}
              (with_senders_keeps _) (λ shown. still_there {m = keep_page shown} (λ w. refl))))

      by_role :
          (o : Option GroupMember) → KeepsMembers (messages_as sv now o group_id page_size page)
      by_role none = still_there (λ w. refl)
      by_role (some m) =
          bind_keeps {m = get_cache sv now (group_page_key group_id page page_size)}
            (still_there (λ w. refl)) found

pub GroupStep-MembersChange : (sv : Services) {w v : World} → GroupStep sv w v → MembersChange w v
GroupStep-MembersChange sv (creates now ctx name description members w) =
    (create_group-KeepsMembers sv now ctx name description members).along w
GroupStep-MembersChange sv (lists now user_id w) =
    (get_user_groups-KeepsMembers sv now user_id).along w
GroupStep-MembersChange sv (adds now ctx group_id user_ids w) =
    (add_group_members-KeepsMembers sv now ctx group_id user_ids).along w
GroupStep-MembersChange sv (removes now ctx group_id user_ids w) =
    (remove_group_members-KeepsMembers sv now ctx group_id user_ids).along w
GroupStep-MembersChange sv (sends now ctx group_id content w) =
    (send_group_message-KeepsMembers sv now ctx group_id content).along w
GroupStep-MembersChange sv (reads now ctx group_id page_size page w) =
    (get_group_messages-KeepsMembers sv now ctx group_id page_size page).along w

GroupRun-MembersChange : (sv : Services) {w v : World} → GroupRun sv w v → MembersChange w v
GroupRun-MembersChange sv (stop w) = same _
GroupRun-MembersChange sv (next step run) =
    Changes-both (GroupStep-MembersChange sv step) (GroupRun-MembersChange sv run)

-- Along any run of group requests, in any order and at any times, an admin of a group stays an
-- admin of it: no request takes the role or the membership away.
pub GroupRun-is_admin_of :
    (sv : Services) (w v : World) (run : GroupRun sv w v) (group_id user_id : ℕ)
    → any (is_admin_of group_id user_id) w.chat.group_members ≡ true
    → any (is_admin_of group_id user_id) v.chat.group_members ≡ true
GroupRun-is_admin_of sv w v run group_id user_id is_admin =
    Changes-admin group_id user_id (GroupRun-MembersChange sv run) is_admin
