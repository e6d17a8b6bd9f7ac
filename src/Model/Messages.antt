-- ===== src/Model/Messages.antt =====
-- The rows of the messaging part: the models `Message`, `MessageRead`, `MessageDeletion`, `Group`,
-- `GroupMember`, `GroupMessage`, `CallSession`, `CallParticipant` and `PushSubscription` of
-- prisma/schema.prisma; and the calls of the cache manager,
-- src/cache/cache.service.ts.
use auth_backend.Base.{ℕ, String, Bool, false, ◌&&◌, Option, List, ◌==◌}

pub record Message : Type 0 where
  pub id : ℕ
  pub sender_id : ℕ
  pub receiver_id : ℕ
  pub content : String
  pub timestamp : ℕ

pub record MessageRead : Type 0 where
  pub id : ℕ
  pub message_id : ℕ
  pub user_id : ℕ

pub record MessageDeletion : Type 0 where
  pub id : ℕ
  pub message_id : ℕ
  pub user_id : ℕ

pub record Group : Type 0 where
  pub id : ℕ
  pub name : String
  pub description : Option String
  pub created_by : ℕ
  pub updated_at : ℕ

-- The column is a text; the code writes these two.
pub data GroupRole : Type 0 where
  group_admin member : GroupRole

pub record GroupMember : Type 0 where
  pub id : ℕ
  pub group_id : ℕ
  pub user_id : ℕ
  pub role : GroupRole

pub record GroupMessage : Type 0 where
  pub id : ℕ
  pub group_id : ℕ
  pub sender_id : ℕ
  pub content : String
  pub timestamp : ℕ

pub data CallType : Type 0 where
  voice video : CallType

pub record CallSession : Type 0 where
  pub id : ℕ
  pub initiator_id : ℕ
  pub type : CallType
  pub start_time : ℕ
  pub end_time : Option ℕ

pub record CallParticipant : Type 0 where
  pub id : ℕ
  pub call_id : ℕ
  pub user_id : ℕ
  pub leave_time : Option ℕ

pub record PushSubscription : Type 0 where
  pub id : ℕ
  pub user_id : ℕ
  pub endpoint : String
  pub p256dh : String
  pub auth : String

-- The columns of a user that the messaging part selects.
pub record Contact : Type 0 where
  pub id : ℕ
  pub username : Option String
  pub full_name : Option String
  pub profile_picture : Option String

-- One conversation as the list of threads shows it; the user may be gone.
pub record Conversation : Type 0 where
  pub contact : Option Contact
  pub last_chat : ℕ
  pub last_message : String
  pub has_seen : Bool

-- A message of a group as it is shown.
pub record ShownGroupMessage : Type 0 where
  pub id : ℕ
  pub sender : Option Contact
  pub sender_id : ℕ
  pub content : String
  pub timestamp : ℕ

-- The keys of the cache. No id holds a colon or a slash, so two of these are the same text only
-- where they are the same key.
pub data CacheKey : Type 0 where
  -- `messages:${user}/${other}`
  messages_key : ℕ → ℕ → CacheKey
  -- `conversationThreads:${user}`
  threads_key : ℕ → CacheKey
  -- `userGroups:${user}`
  groups_key : ℕ → CacheKey
  -- `groupMessages:${group}`
  group_messages_key : ℕ → CacheKey
  -- `groupMessages:${group}:${page}:${pageSize}`
  group_page_key : ℕ → ℕ → ℕ → CacheKey

-- What is stored as JSON under a key.
pub data Cached : Type 0 where
  cached_threads : List Conversation → Cached
  cached_groups : List Group → Cached
  cached_group_messages : List ShownGroupMessage → Cached

abbrev pub same_key : CacheKey → CacheKey → Bool
same_key (messages_key a b) (messages_key c d) = a == c && b == d
same_key (threads_key a) (threads_key b) = a == b
same_key (groups_key a) (groups_key b) = a == b
same_key (group_messages_key a) (group_messages_key b) = a == b
same_key (group_page_key a b c) (group_page_key x y z) = a == x && b == y && c == z
same_key _ _ = false

-- A call of the cache manager that writes: `set`, at a time, or `del`.
pub data CacheCall : Type 0 where
  cache_set : ℕ → CacheKey → Cached → CacheCall
  cache_del : CacheKey → CacheCall

-- `cache` is the calls that the cache manager has got, the latest first.
pub record Chat : Type 0 where
  pub messages : List Message
  pub message_reads : List MessageRead
  pub message_deletions : List MessageDeletion
  pub groups : List Group
  pub group_members : List GroupMember
  pub group_messages : List GroupMessage
  pub call_sessions : List CallSession
  pub call_participants : List CallParticipant
  pub push_subscriptions : List PushSubscription
  pub cache : List CacheCall
