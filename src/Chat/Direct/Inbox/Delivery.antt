-- ===== src/Chat/Direct/Inbox/Delivery.antt =====
-- A message that is sent reaches the unread messages of its receiver.
use mathlib.Core.List.{reverse}
use mathlib.Core.List.Memᴰ
use auth_backend.Base.{
  ℕ, String, ◌≡◌, inl, inr, refl, false, ◌&&◌, not, List, [], ◌∷◌, ◌++◌, any, Memᴰ, ==_refl,
  reverse-mem, mem-reverse, ◌==◌, if◌then◌else◌, some, same_text,
}
use auth_backend.Model.{World, HttpContext, User, Message}
use auth_backend.Action.{ok}
use auth_backend.Services.{Services}
use auth_backend.Chat.Direct.{has_username, is_read, new_message, read_by, deliver, send_message}
use auth_backend.Chat.Direct.Inbox.{ShownMessage, get_unread_messages}
use auth_backend.Chat.Direct.Inbox.Reading.{
  decrypt_each, decrypt_all_eq, decrypt_each-Shows, mem-Shows,
}

-- Every content is one that the service encrypted.
abbrev pub AllReadable : Services → List Message → Type 0
AllReadable sv ms = (m : Message) → Memᴰ m ms → (text : String) × (sv.decrypt m.content ≡ ok text)

decrypt_each-AllReadable :
    (sv : Services) (ms : List Message)
    → AllReadable sv ms
    → (ss : List ShownMessage) × (decrypt_each sv ms ≡ ok ss)
decrypt_each-AllReadable sv [] h = ([], refl)
decrypt_each-AllReadable sv (m ∷ ms) h =
    let (text, good) = h m (Memᴰ.head refl) in
    let (rest, more) = decrypt_each-AllReadable sv ms (λ n k. h n (Memᴰ.tail k)) in
    (record { message = m; text = text } ∷ rest, rw (good, more) refl)

module _ (sv : Services) (w : World) (reader : HttpContext) (receiver : User)
    (signed_in : reader.user ≡ some receiver) where
  abbrev unread : List Message
  unread =
      sv.find_ordered (λ m. m.receiver_id == receiver.id && not (is_read w receiver.id m))
        (λ m. m.timestamp) w.chat.messages

  shows_unread :
      (m : Message) (text : String)
      → AllReadable sv w.chat.messages
      → Memᴰ m w.chat.messages
      → m.receiver_id ≡ receiver.id
      → is_read w receiver.id m ≡ false
      → sv.decrypt m.content ≡ ok text
      → (shown : List ShownMessage) × (get_unread_messages sv reader w ≡ (ok shown, w))
        × Memᴰ (record { message = m; text = text }) shown
  unfolding get_unread_messages
  shows_unread m text readable k mine new good =
      let (shown, all) = decrypt_each-AllReadable sv (reverse unread) (λ n l.
        readable n (sv.find_ordered_sound _ _ w.chat.messages n (mem-reverse unread l)).0) in
      (
        shown,
        rw (signed_in, decrypt_all_eq sv (reverse unread) w, all) refl,
        mem-Shows sv m text (decrypt_each-Shows sv (reverse unread) shown all)
            (reverse-mem unread (
              sv.find_ordered_complete
                (λ m. m.receiver_id == receiver.id && not (is_read w receiver.id m)) _
                w.chat.messages m k (rw (mine, ==_refl receiver.id, new) refl)))
            good,
      )

sends :
    (sv : Services) (now : ℕ) (ctx : HttpContext) (me receiver : User) (username content : String)
    (w : World)
    → ctx.user ≡ some me
    → same_text me.username (some username) ≡ false
    → sv.find_first (has_username username) w.users ≡ some receiver
    → send_message sv now ctx username content w ≡ deliver sv now me (some receiver) content w
unfolding send_message
sends sv now ctx me receiver username content w signed_in two found =
    rw (signed_in, two, if◌then◌else◌, found) refl

-- A message that a signed-in user sends to another user, whom the username finds, is among the
-- unread messages that the receiver then asks for, with the content that was sent. This holds
-- where every stored message decrypts, and no record says that the receiver has read a message of
-- the id that the new one gets.
pub get_unread_messages-send_message :
    (sv : Services) (now : ℕ) (ctx : HttpContext) (me receiver : User) (username content : String)
    (w : World) (reader : HttpContext) (sender_in : ctx.user ≡ some me)
    (receiver_in : reader.user ≡ some receiver)
    (two : same_text me.username (some username) ≡ false)
    (found : sv.find_first (has_username username) w.users ≡ some receiver)
    (readable : AllReadable sv w.chat.messages)
    (new : any (read_by w.next_id receiver.id) w.chat.message_reads ≡ false)
    → (shown : List ShownMessage) × (get_unread_messages sv reader
          (send_message sv now ctx username content w).1
        ≡ (ok shown, (send_message sv now ctx username content w).1))
      × Memᴰ
          (record {
            message = new_message now me.id receiver.id (sv.encrypt content) w.next_id;
            text = content;
          })
          shown
get_unread_messages-send_message sv now ctx me receiver username content w reader sender_in
      receiver_in two found readable new =
    rw (sends sv now ctx me receiver username content w sender_in two found) (
      shows_unread sv (deliver sv now me (some receiver) content w).1 reader receiver receiver_in
        sent content all_readable (Memᴰ.append_right w.chat.messages (Memᴰ.head refl)) refl new
        (sv.decrypt-encrypt content))
  where
    sent : Message
    sent = new_message now me.id receiver.id (sv.encrypt content) w.next_id

    all_readable : AllReadable sv (w.chat.messages ++ sent ∷ [])
    all_readable m k = elim (Memᴰ.append_cases w.chat.messages k) [
      | inl old ↦ readable m old
      | inr last ↦ (content, rw (Memᴰ.eq_of_singleton last) (sv.decrypt-encrypt content))
    ]
