-- ===== src/Chat/Store.antt =====
-- The tables of the messaging part, the writes that check foreign keys
-- (prisma/schema.prisma: a row that others refer to cannot be deleted), and the cache
-- (src/cache/cache.service.ts).
use auth_backend.Base.{ℕ, Bool, not, ◌+◌, Option, List, [], ◌∷◌, ◌++◌, any, filter, if◌then◌else◌}
use auth_backend.Model.{
  World, Chat, User, Message, MessageRead, MessageDeletion, Group, GroupMember, GroupMessage,
  CallSession, CallParticipant, PushSubscription, Contact, CacheKey, Cached, CacheCall, cache_set,
  cache_del,
}
use auth_backend.Action.{Action, ok, err, reference_violation, gets, modify}
use auth_backend.Services.{Services}
use auth_backend.Store.{Table}

abbrev with_chat : World → Chat → World
with_chat w c = record w { chat = c }

abbrev pub messages_table : Table Message
messages_table = record {
  rows = λ w. w.chat.messages;
  put = λ rs w. let c = w.chat in with_chat w (record c { messages = rs });
}

abbrev pub message_reads_table : Table MessageRead
message_reads_table = record {
  rows = λ w. w.chat.message_reads;
  put = λ rs w. let c = w.chat in with_chat w (record c { message_reads = rs });
}

abbrev pub message_deletions_table : Table MessageDeletion
message_deletions_table = record {
  rows = λ w. w.chat.message_deletions;
  put = λ rs w. let c = w.chat in with_chat w (record c { message_deletions = rs });
}

abbrev pub groups_table : Table Group
groups_table = record {
  rows = λ w. w.chat.groups;
  put = λ rs w. let c = w.chat in with_chat w (record c { groups = rs });
}

abbrev pub group_members_table : Table GroupMember
group_members_table = record {
  rows = λ w. w.chat.group_members;
  put = λ rs w. let c = w.chat in with_chat w (record c { group_members = rs });
}

abbrev pub group_messages_table : Table GroupMessage
group_messages_table = record {
  rows = λ w. w.chat.group_messages;
  put = λ rs w. let c = w.chat in with_chat w (record c { group_messages = rs });
}

abbrev pub call_sessions_table : Table CallSession
call_sessions_table = record {
  rows = λ w. w.chat.call_sessions;
  put = λ rs w. let c = w.chat in with_chat w (record c { call_sessions = rs });
}

abbrev pub call_participants_table : Table CallParticipant
call_participants_table = record {
  rows = λ w. w.chat.call_participants;
  put = λ rs w. let c = w.chat in with_chat w (record c { call_participants = rs });
}

abbrev pub push_subscriptions_table : Table PushSubscription
push_subscriptions_table = record {
  rows = λ w. w.chat.push_subscriptions;
  put = λ rs w. let c = w.chat in with_chat w (record c { push_subscriptions = rs });
}

module _ {R : Type 0} where
  -- `deleteMany`, where nothing refers to the rows.
  abbrev pub delete_many : Table R → (R → Bool) → Action (Unit {0})
  delete_many t p = modify (λ w. t.put (filter (λ r. not (p r)) (t.rows w)) w)

  -- One row of a `createMany` with `skipDuplicates`: left out where it clashes with a row.
  abbrev pub create_new : Table R → (R → R → Bool) → (ℕ → R) → World → World
  create_new t clash make w =
      let row = make w.next_id in
      if any (clash row) (t.rows w)
      then w
      else t.put (t.rows w ++ row ∷ []) (record w { next_id = w.next_id + 1 })

  abbrev pub create_each : Table R → (R → R → Bool) → List (ℕ → R) → World → World
  create_each t clash [] w = w
  create_each t clash (make ∷ makes) w = create_each t clash makes (create_new t clash make w)

  -- `createMany` with `skipDuplicates`.
  abbrev pub create_many : Table R → (R → R → Bool) → List (ℕ → R) → Action (Unit {0})
  create_many t clash makes = modify (create_each t clash makes)

-- The write is refused where the condition holds of a row that another table refers to.
abbrev pub refuse_if : (World → Bool) → Action (Unit {0})
refuse_if test w = (if test w then err reference_violation else ok tt, w)

abbrev pub contact_of : User → Contact
contact_of u = record {
  id = u.id;
  username = u.username;
  full_name = u.full_name;
  profile_picture = u.profile_picture;
}

abbrev call_cache : CacheCall → Action (Unit {0})
call_cache call = modify (λ w. let c = w.chat in with_chat w (record c { cache = call ∷ c.cache }))

abbrev pub del_cache : CacheKey → Action (Unit {0})
del_cache key = call_cache (cache_del key)

abbrev pub set_cache : ℕ → CacheKey → Cached → Action (Unit {0})
set_cache now key value = call_cache (cache_set now key value)

abbrev pub get_cache : Services → ℕ → CacheKey → Action (Option Cached)
get_cache sv now key = gets (λ w. sv.cached w.chat.cache now key)
