-- ===== src/Chat/Direct/Deletion.antt =====
-- Deleting messages: `deleteMessage` and `deleteConversation` of
-- src/messaging/messaging.service.ts.
pub mod Refused
pub mod Hidden
use mathlib.Core.List.{reverse}
use auth_backend.Base.{
  ℕ, String, Bool, true, false, ◌&&◌, ◌||◌, not, ◌+◌, ◌-◌, ◌*◌, Option, none, some, List, [], ◌∷◌,
  ◌++◌, map, any, filter, take, drop, all, includes, ◌==◌, ltb, same_text, length, if◌then◌else◌,
}
use auth_backend.Base.Text.{join, split_words}
use auth_backend.Model.{
  World, HttpContext, User, Message, MessageRead, MessageDeletion, Contact, Conversation,
  messages_key, threads_key, Cached, cached_threads, cached_groups, cached_group_messages,
  message_sent,
}
use auth_backend.Action.{
  Exception, plain_error, type_error, Result, ok, err, Action, recover, pure, gets, or_raise,
  raise_if, lift, continue, ◌>>=◌, ◌>>◌,
}
use auth_backend.Services.{Services}
use auth_backend.Store.{users_table, create, find_first, find_many, delete, emit}
use auth_backend.Oauth.Reply.{Reply, value, response, respond_with}
use auth_backend.Chat.Store.{
  messages_table, message_reads_table, message_deletions_table, delete_many, create_many, refuse_if,
  contact_of, del_cache, set_cache, get_cache,
}
use auth_backend.Chat.Direct.{
  message_is, is_between, concerns, other_party, read_by, deleted_by, is_read, is_deleted, page_of,
  refuse_page, contact_or_gone,
}

pub data Outcome : Type 0 where
  success : Outcome
  unexpected_error : Outcome

-- A deletion of messages is refused where a read or a deletion record refers to one of them.
abbrev pub is_referred_to : (Message → Bool) → World → Bool
is_referred_to p w =
    any
      (λ m.
        p m
        && (any (λ r. r.message_id == m.id) w.chat.message_reads
            || any (λ d. d.message_id == m.id) w.chat.message_deletions))
      w.chat.messages

abbrev pub is_deletable : World → List Message → ℕ → ℕ → Message → Bool
is_deletable w messages me other m =
    any (λ k. k.id == m.id) messages
    && all (λ d. not (d.message_id == m.id) || d.user_id == me || d.user_id == other)
        w.chat.message_deletions

-- `MessageDeletion` is unique by message and user.
abbrev pub same_deletion : MessageDeletion → MessageDeletion → Bool
same_deletion d e = deleted_by d.message_id d.user_id e

abbrev pub mark_deleted : ℕ → List Message → Action (Unit {0})
mark_deleted user_id messages =
    create_many message_deletions_table same_deletion
      (map (λ m. λ i. record { id = i; message_id = m.id; user_id = user_id }) messages)

module _ (sv : Services) where
  abbrev pub delete_own :
      ℕ → HttpContext → Option Message → Action (Reply sv.ServerResponse Outcome)
  delete_own i ctx none = respond_with sv 404 "Message not found"
  delete_own i ctx (some m) = do
    me ← or_raise ctx.user type_error
    if not (m.sender_id == me.id)
        then respond_with sv 403 "You are not authorized"
        else (delete_many message_reads_table (λ r. r.message_id == i)
            >> delete_many message_reads_table (λ r. r.message_id == i)
            >> refuse_if (is_referred_to (message_is i))
            >> delete messages_table (message_is i)
            >> pure (value success))

  -- Any exception of the block becomes the reply with an error.
  unfoldable pub delete_message : HttpContext → Option ℕ → Action (Reply sv.ServerResponse Outcome)
  delete_message ctx none =
      recover (respond_with sv 400 "Invalid message ID") (pure (value unexpected_error))
  delete_message ctx (some i) =
      recover (do m ← find_first sv messages_table (message_is i); delete_own i ctx m)
        (pure (value unexpected_error))

  abbrev pub delete_both : ℕ → ℕ → List Message → Action (Reply sv.ServerResponse Outcome)
  delete_both me other [] = respond_with sv 404 "Conversation not found"
  delete_both me other (m ∷ ms) = do
    mark_deleted me (m ∷ ms)
    w ← gets (λ w. w)
    let test = is_deletable w (m ∷ ms) me other
    refuse_if (is_referred_to test)
    delete_many messages_table test
    pure (value success)

  unfoldable pub delete_conversation :
      HttpContext → Option ℕ → Action (Reply sv.ServerResponse Outcome)
  delete_conversation ctx given = do
    me ← or_raise ctx.user type_error
    elim given [
      | none ↦ respond_with sv 400 "Invalid user ID"
      | some other ↦
          if me.id == other
          then respond_with sv 400 "You cannot delete a conversation with yourself"
          else (do
            messages ← find_many sv messages_table (is_between me.id other)
            delete_both me.id other messages)
    ]
