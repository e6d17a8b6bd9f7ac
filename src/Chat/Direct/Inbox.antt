-- ===== src/Chat/Direct/Inbox.antt =====
-- Reading messages: `getMessagesForConversation` and `getUnreadMessages` of
-- src/messaging/messaging.service.ts.
pub mod Reading
pub mod Delivery
use mathlib.Core.List.{reverse}
use auth_backend.Base.{
  ℕ, String, Bool, true, false, ◌&&◌, ◌||◌, not, ◌+◌, ◌-◌, ◌*◌, Option, none, some, List, [], ◌∷◌,
  ◌++◌, map, any, filter, take, drop, all, includes, ◌==◌, ltb, same_text, length, if◌then◌else◌,
}
use auth_backend.Base.Text.{join, split_words}
use auth_backend.Model.{
  World, HttpContext, User, Message, MessageRead, MessageDeletion, Contact, Conversation,
  messages_key, threads_key, Cached, cached_threads, cached_groups, cached_group_messages,
  message_sent,
}
use auth_backend.Action.{
  Exception, plain_error, type_error, Result, ok, err, Action, recover, pure, gets, or_raise,
  raise_if, lift, continue, ◌>>=◌, ◌>>◌,
}
use auth_backend.Services.{Services}
use auth_backend.Store.{users_table, create, find_first, find_many, delete, emit}
use auth_backend.Oauth.Reply.{Reply, value, response, respond_with}
use auth_backend.Chat.Store.{
  messages_table, message_reads_table, message_deletions_table, delete_many, create_many, refuse_if,
  contact_of, del_cache, set_cache, get_cache,
}
use auth_backend.Chat.Direct.{
  message_is, is_between, concerns, other_party, read_by, deleted_by, is_read, is_deleted, page_of,
  refuse_page, contact_or_gone,
}

-- A message as it is shown.
pub record ShownMessage : Type 0 where
  pub message : Message
  pub text : String

abbrev pub unread_in : World → ℕ → List Message → List Message
unread_in w user_id messages =
    filter (λ m. m.receiver_id == user_id && not (is_read w user_id m)) messages

-- The column has no unique constraint, so `skipDuplicates` skips nothing.
abbrev pub mark_read : ℕ → List Message → Action (Unit {0})
mark_read user_id unread =
    create_many message_reads_table (λ r s. false)
      (map (λ m. λ i. record { id = i; message_id = m.id; user_id = user_id }) unread)

abbrev pub visible_between : World → ℕ → ℕ → Message → Bool
visible_between w user_id other m = is_between user_id other m && not (is_deleted w user_id m)

module _ (sv : Services) where
  unfoldable pub decrypt_all : List Message → Action (List ShownMessage)
  decrypt_all [] = pure []
  decrypt_all (m ∷ ms) = do
    text ← lift (sv.decrypt m.content)
    rest ← decrypt_all ms
    pure (record { message = m; text = text } ∷ rest)

  unfoldable pub get_messages_for_conversation : ℕ → ℕ → ℕ → ℕ → Action (List ShownMessage)
  unfolding decrypt_all
  get_messages_for_conversation user_id other page_size page = do
    refuse_page page_size page
    w ← gets (λ w. w)
    let all = sv.find_ordered (visible_between w user_id other) (λ m. m.timestamp) w.chat.messages
    let messages = page_of page_size page all
    mark_read user_id (unread_in w user_id messages)
    decrypt_all (reverse messages)

  unfoldable pub get_unread_messages : HttpContext → Action (List ShownMessage)
  unfolding decrypt_all
  get_unread_messages ctx = do
    me ← or_raise ctx.user type_error
    w ← gets (λ w. w)
    decrypt_all (
        reverse (
          sv.find_ordered (λ m. m.receiver_id == me.id && not (is_read w me.id m))
            (λ m. m.timestamp) w.chat.messages))
