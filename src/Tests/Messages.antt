-- ===== src/Tests/Messages.antt =====
-- Messages, groups and calls of Ann and Bob.
use auth_backend.Base.{◌≡◌, refl, true, any, List, [], ◌∷◌, Memᴰ, none, some, not, if◌then◌else◌}
use auth_backend.Model.{
  World, HttpContext, User, Message, GroupMember, group_admin, CallSession, CallParticipant, voice,
  group_page_key, cached_group_messages, CacheCall, cache_set,
}
use auth_backend.Action.{ok, err, reference_violation}
use auth_backend.Auth.Register.{blank_user}
use auth_backend.Tests.Fixtures.{services, ann, world, context, empty_chat}
use auth_backend.Chat.Direct.{new_message, send_message}
use auth_backend.Chat.Direct.Inbox.{
  ShownMessage, get_messages_for_conversation, get_unread_messages,
}
use auth_backend.Chat.Direct.Inbox.Delivery.{get_unread_messages-send_message}
use auth_backend.Chat.Direct.Deletion.{delete_conversation}
use auth_backend.Chat.Direct.Deletion.Refused.{after, delete_conversation_refused}
use auth_backend.Chat.Direct.Deletion.Hidden.{get_messages_for_conversation-delete_conversation}
use auth_backend.Chat.Groups.{is_admin_of, add_group_members, remove_group_members}
use auth_backend.Chat.Groups.Run.{GroupRun, next, stop, adds, removes}
use auth_backend.Chat.Groups.Requests.{GroupRun-is_admin_of}
use auth_backend.Chat.Calls.{leave_call, is_in, left}
use auth_backend.Chat.Calls.Ends.{leave_call-is_in}

abbrev bob : User
bob = let blank = blank_user 0 "bob@x.org" "pw" 2 in record blank { username = some "bob" }

abbrev hello : Message
hello = record { id = 11; sender_id = 2; receiver_id = 1; content = "hello"; timestamp = 50 }

abbrev shown_hello : ShownMessage
shown_hello = record { message = hello; text = "hello" }

abbrev ann_admin : GroupMember
ann_admin = record { id = 21; group_id = 20; user_id = 1; role = group_admin }

abbrev call : CallSession
call = record { id = 30; initiator_id = 1; type = voice; start_time = 60; end_time = none }

abbrev ann_in : CallParticipant
ann_in = record { id = 31; call_id = 30; user_id = 1; leave_time = none }

abbrev page : CacheCall
page = cache_set 90 (group_page_key 20 1 20) (cached_group_messages [])

-- Bob has sent Ann a message; Ann is in a call and the admin of a group, the first page of which
-- is cached.
abbrev talk : World
talk =
    let chat = empty_chat in
    record world {
      users = ann ∷ bob ∷ [];
      next_id = 40;
      chat = record chat {
        messages = hello ∷ [];
        group_members = ann_admin ∷ [];
        call_sessions = call ∷ [];
        call_participants = ann_in ∷ [];
        cache = page ∷ [];
      };
    }

abbrev bob_context : HttpContext
bob_context = let c = context in record c { user = some bob }

get_unread_messages-send_message_example :
    (shown : List ShownMessage) × (get_unread_messages services bob_context
        (send_message services 100 context "bob" "hi" talk).1
      ≡ (ok shown, (send_message services 100 context "bob" "hi" talk).1))
    × Memᴰ (record { message = new_message 100 1 2 "hi" 40; text = "hi" }) shown
get_unread_messages-send_message_example =
    get_unread_messages-send_message services 100 context ann bob "bob" "hi" talk bob_context refl
      refl refl refl (λ m k. (m.content, refl)) refl

delete_conversation_refused_example :
    (delete_conversation services context (some 2) talk
      ≡ (err reference_violation, after 1 (hello ∷ []) talk))
    × ((after 1 (hello ∷ []) talk).chat.messages ≡ hello ∷ [])
delete_conversation_refused_example =
    delete_conversation_refused services context ann 2 talk refl refl hello (Memᴰ.head refl) refl
      (λ d k e. elim k [ ])

get_messages_for_conversation-delete_conversation_example :
    get_messages_for_conversation services 1 2 20 1
      (delete_conversation services context (some 2) talk).1
    ≡ (ok [], (delete_conversation services context (some 2) talk).1)
get_messages_for_conversation-delete_conversation_example =
    get_messages_for_conversation-delete_conversation services context ann 2 talk refl refl 20 0

-- Ann adds Bob to the group and then asks to remove both.
abbrev with_bob : World
with_bob = (add_group_members services 100 context 20 (2 ∷ []) talk).1

abbrev without_both : World
without_both = (remove_group_members services 110 context 20 (1 ∷ 2 ∷ []) with_bob).1

abbrev both_steps : GroupRun services talk without_both
both_steps =
    next (adds 100 context 20 (2 ∷ []) talk)
      (next (removes 110 context 20 (1 ∷ 2 ∷ []) with_bob) (stop without_both))

GroupRun-is_admin_of_example : any (is_admin_of 20 1) without_both.chat.group_members ≡ true
GroupRun-is_admin_of_example = GroupRun-is_admin_of services talk without_both both_steps 20 1 refl

leave_call-is_in_example :
    let out = leave_call services 100 context 30 talk in
    (out.0 ≡ ok (left 30 (not (any (is_in 30) out.1.chat.call_participants))))
    × (out.1.chat.call_sessions ≡ (
        if any (is_in 30) out.1.chat.call_participants
        then call ∷ []
        else record call { end_time = some 100 } ∷ []))
leave_call-is_in_example = leave_call-is_in services 100 context ann 30 talk refl ann_in refl refl
