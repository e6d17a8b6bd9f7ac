-- ===== src/Chat/Direct.antt =====
-- Messages between two users: `sendMessage` and `getConversationThreads` of
-- src/messaging/messaging.service.ts. Pages and page sizes are numbers from 0 on.
pub mod Inbox
pub mod Deletion
use mathlib.Core.List.{reverse}
use auth_backend.Base.{
  ℕ, String, Bool, true, false, ◌&&◌, ◌||◌, not, ◌+◌, ◌-◌, ◌*◌, Option, none, some, List, [], ◌∷◌,
  ◌++◌, map, any, filter, take, drop, all, includes, ◌==◌, ltb, same_text, length, if◌then◌else◌,
}
use auth_backend.Base.Text.{join, split_words}
use auth_backend.Model.{
  World, HttpContext, User, Message, MessageRead, MessageDeletion, Contact, Conversation,
  messages_key, threads_key, Cached, cached_threads, cached_groups, cached_group_messages,
  message_sent,
}
use auth_backend.Action.{
  Exception, plain_error, type_error, Result, ok, err, Action, recover, pure, gets, or_raise,
  raise_if, lift, continue, ◌>>=◌, ◌>>◌,
}
use auth_backend.Services.{Services}
use auth_backend.Store.{users_table, create, find_first, find_many, delete, emit}
use auth_backend.Oauth.Reply.{Reply, value, response, respond_with}
use auth_backend.Chat.Store.{
  messages_table, message_reads_table, message_deletions_table, delete_many, create_many, refuse_if,
  contact_of, del_cache, set_cache, get_cache,
}

abbrev pub has_username : String → User → Bool
has_username username u = same_text u.username (some username)

abbrev pub message_is : ℕ → Message → Bool
message_is i m = m.id == i

-- `{ senderId: a, receiverId: b }`, or the other way round.
abbrev pub is_between : ℕ → ℕ → Message → Bool
is_between a b m = m.sender_id == a && m.receiver_id == b || m.sender_id == b && m.receiver_id == a

abbrev pub concerns : ℕ → Message → Bool
concerns user_id m = m.sender_id == user_id || m.receiver_id == user_id

abbrev pub other_party : ℕ → Message → ℕ
other_party user_id m = if not (m.sender_id == user_id) then m.sender_id else m.receiver_id

abbrev pub read_by : ℕ → ℕ → MessageRead → Bool
read_by message_id user_id r = r.message_id == message_id && r.user_id == user_id

abbrev pub deleted_by : ℕ → ℕ → MessageDeletion → Bool
deleted_by message_id user_id d = d.message_id == message_id && d.user_id == user_id

abbrev pub is_read : World → ℕ → Message → Bool
is_read w user_id m = any (read_by m.id user_id) w.chat.message_reads

abbrev pub is_deleted : World → ℕ → Message → Bool
is_deleted w user_id m = any (deleted_by m.id user_id) w.chat.message_deletions

abbrev pub new_message : ℕ → ℕ → ℕ → String → ℕ → Message
new_message now sender_id receiver_id content i = record {
  id = i;
  sender_id = sender_id;
  receiver_id = receiver_id;
  content = content;
  timestamp = now;
}

-- The first ten words.
unfoldable pub shorten : String → String
shorten content = join " " (take 10 (split_words content))

-- A page of a list, and the refusal of a negative `skip`.
abbrev pub page_of : {A : Type 0} → ℕ → ℕ → List A → List A
page_of page_size page messages = take page_size (drop ((page - 1) * page_size) messages)

abbrev pub refuse_page : ℕ → ℕ → Action (Unit {0})
refuse_page page_size page =
    raise_if (page == 0 && ltb 0 page_size) (plain_error "Invalid value for skip argument")

abbrev pub contact_or_gone : Option User → Option Contact
contact_or_gone none = none
contact_or_gone (some u) = some (contact_of u)

module _ (sv : Services) (now : ℕ) where
  -- The receiver was looked up. The message is created last: `return message` awaits the query
  -- that was built before. The list of threads of the receiver is left in the cache.
  abbrev pub deliver : User → Option User → String → Action (Reply sv.ServerResponse Message)
  deliver me none content = respond_with sv 400 "Receiver not found"
  deliver me (some receiver) content = do
    let stored = sv.encrypt content
    emit (message_sent me.id receiver.id content)
    del_cache (messages_key me.id receiver.id)
    del_cache (threads_key me.id)
    m ← create messages_table (new_message now me.id receiver.id stored)
    pure (value m)

  abbrev pub send_to : User → String → String → Action (Reply sv.ServerResponse Message)
  send_to me receiver_username content = do
    receiver ← find_first sv users_table (has_username receiver_username)
    deliver me receiver content

  unfoldable pub send_message :
      HttpContext → String → String → Action (Reply sv.ServerResponse Message)
  send_message ctx receiver_username content = do
    me ← or_raise ctx.user type_error
    if same_text me.username (some receiver_username)
        then respond_with sv 400 "You cannot send a message to yourself"
        else send_to me receiver_username content

  abbrev pub conversation_of : World → ℕ → Message → Option User → String → Conversation
  conversation_of w user_id m u text = record {
    contact = contact_or_gone u;
    last_chat = m.timestamp;
    last_message = shorten text;
    has_seen = m.sender_id == user_id || m.receiver_id == user_id && is_read w user_id m;
  }

  -- The loop over the messages, newest first; `seen` is the users that have a conversation.
  unfoldable pub collect : World → ℕ → List ℕ → List Message → Action (List Conversation)
  unfolding shorten
  collect w user_id seen [] = pure []
  collect w user_id seen (m ∷ ms) =
      let other = other_party user_id m in
      elim (any (λ i. i == other) seen) [
        | true ↦ collect w user_id seen ms
        | false ↦ do
          u ← find_first sv users_table (λ u. u.id == other)
          text ← lift (sv.decrypt m.content)
          rest ← collect w user_id (other ∷ seen) ms
          pure (conversation_of w user_id m u text ∷ rest)
      ]

  abbrev pub threads_or_cached : ℕ → Option Cached → Action (Reply sv.ServerResponse Cached)
  threads_or_cached user_id (some c) = pure (value c)
  threads_or_cached user_id none = do
    w ← gets (λ w. w)
    let messages = sv.find_ordered (concerns user_id) (λ m. m.timestamp) w.chat.messages
    conversations ← collect w user_id [] messages
    set_cache now (threads_key user_id) (cached_threads conversations)
    pure (value (cached_threads conversations))

  unfoldable pub get_conversation_threads : Option ℕ → Action (Reply sv.ServerResponse Cached)
  unfolding collect
  get_conversation_threads none = respond_with sv 400 "Invalid user ID"
  get_conversation_threads (some user_id) = do
    cached ← get_cache sv now (threads_key user_id)
    threads_or_cached user_id cached
