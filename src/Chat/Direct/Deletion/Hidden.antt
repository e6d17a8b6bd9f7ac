-- ===== src/Chat/Direct/Deletion/Hidden.antt =====
-- A user who deletes a conversation no longer sees it.
use auth_backend.Base.{
  ℕ, suc, ◌≡◌, inl, inr, refl, true, false, ◌&&◌, List, [], ◌∷◌, Memᴰ, Bool-cases, List-cases,
  arith, mem-filter, ◌==◌, if◌then◌else◌, some, take-nil, drop-nil, ◌*◌, ◌-◌, ltb,
}
use auth_backend.Model.{World, HttpContext, User, Message}
use auth_backend.Action.{Action, Result-cases, ok}
use auth_backend.Services.{Services}
use auth_backend.Oauth.Reply.{Reply, respond_with}
use auth_backend.Chat.Direct.{is_between, is_deleted}
use auth_backend.Chat.Direct.Inbox.{visible_between, decrypt_all, get_messages_for_conversation}
use auth_backend.Chat.Direct.Deletion.{
  Outcome, is_referred_to, is_deletable, delete_both, delete_conversation,
}
use auth_backend.Chat.Direct.Deletion.Refused.{after, after-marks, after-messages}

not_found_keeps :
    (sv : Services) (w : World)
    → (let m : Action (Reply sv.ServerResponse Outcome) =
          respond_with sv 404 "Conversation not found" in
        (m w).1)
      ≡ w
not_found_keeps sv w = elim (Result-cases (sv.respond 404 "Conversation not found")) [
  | inl (e, bad) ↦ rw bad refl
  | inr (r, good) ↦ rw good refl
]

-- What stands after `delete_both`: no other messages, and a mark on each of the given ones.
both-marks :
    (sv : Services) (me other : ℕ) (ms : List Message) (w : World) (m : Message)
    → Memᴰ m (delete_both sv me other ms w).1.chat.messages
    → Memᴰ m w.chat.messages × (Memᴰ m ms → is_deleted (delete_both sv me other ms w).1 me m ≡ true)
both-marks sv me other [] w m k = (rw (not_found_keeps sv w) at k, λ n. elim n [ ])
both-marks sv me other (x ∷ xs) w m k =
    elim (Bool-cases (
      is_referred_to (is_deletable (after me (x ∷ xs) w) (x ∷ xs) me other)
        (after me (x ∷ xs) w))) [
          | inl bad ↦ (
            rw (bad, if◌then◌else◌, after-messages me (x ∷ xs) w) at k,
            λ n. rw (bad, if◌then◌else◌) (after-marks me m (x ∷ xs) w n),
          )
          | inr good ↦ (
            rw (after-messages me (x ∷ xs) w) at
                (mem-filter _ (after me (x ∷ xs) w).chat.messages m
                  (rw (good, if◌then◌else◌) at k)).0,
            λ n. rw (good, if◌then◌else◌) (after-marks me m (x ∷ xs) w n),
          )
        ]

module _ (sv : Services) (user_id other : ℕ) where
  -- A page of a conversation of which everything is deleted.
  nothing_to_show :
      (page_size page : ℕ) (w : World)
      → ((m : Message) → Memᴰ m w.chat.messages → visible_between w user_id other m ≡ false)
      → get_messages_for_conversation sv user_id other page_size (suc page) w ≡ (ok [], w)
  unfolding get_messages_for_conversation decrypt_all
  nothing_to_show page_size page w none_visible =
      rw
        (
          zero_page,
          if◌then◌else◌,
          nothing,
          drop-nil ((suc page - 1) * page_size),
          take-nil page_size,
        )
        refl
    where
      zero_page : (suc page == 0 && ltb 0 page_size) ≡ false
      zero_page = ground arith

      nothing :
          sv.find_ordered (visible_between w user_id other) (λ m. m.timestamp) w.chat.messages ≡ []
      nothing =
          elim (List-cases (
            sv.find_ordered (visible_between w user_id other) (λ m. m.timestamp) w.chat.messages)) [
              | inl e ↦ e
              | inr (m, ms, e) ↦
                  let (k, h) =
                    sv.find_ordered_sound (visible_between w user_id other) (λ m. m.timestamp)
                      w.chat.messages m (rw e (Memᴰ.head refl)) in
                  cc (none_visible m k, h)
            ]

runs :
    (sv : Services) (ctx : HttpContext) (me : User) (other : ℕ) (w : World)
    → ctx.user ≡ some me
    → (me.id == other) ≡ false
    → delete_conversation sv ctx (some other) w
      ≡ delete_both sv me.id other (sv.find_many (is_between me.id other) w.chat.messages) w
unfolding delete_conversation
runs sv ctx me other w signed_in two = rw (signed_in, two, if◌then◌else◌) refl

hides :
    (sv : Services) (me other : ℕ) (w : World) (m : Message)
    → Memᴰ m
        (delete_both sv me other
          (sv.find_many (is_between me other) w.chat.messages)
          w).1.chat.messages
    → visible_between
        (delete_both sv me other (sv.find_many (is_between me other) w.chat.messages) w).1
        me
        other
        m
      ≡ false
hides sv me other w m k =
    let (stored, mark) =
      both-marks sv me other (sv.find_many (is_between me other) w.chat.messages) w m k in
    elim (Bool-cases (is_between me other m)) [
      | inl both ↦
          rw
            (both, mark (sv.find_many_complete (is_between me other) w.chat.messages m stored both))
            refl
      | inr neither ↦ rw neither refl
    ]

-- After `deleteConversation` of a signed-in user with another one, whatever it returned or threw,
-- every page of the conversation that the user asks for is empty.
pub get_messages_for_conversation-delete_conversation :
    (sv : Services) (ctx : HttpContext) (me : User) (other : ℕ) (w : World)
    (signed_in : ctx.user ≡ some me) (two : (me.id == other) ≡ false) (page_size page : ℕ)
    → get_messages_for_conversation sv me.id other page_size
        (suc page)
        (delete_conversation sv ctx (some other) w).1
      ≡ (ok [], (delete_conversation sv ctx (some other) w).1)
get_messages_for_conversation-delete_conversation sv ctx me other w signed_in two page_size page =
    rw (runs sv ctx me other w signed_in two)
      (nothing_to_show sv me.id other page_size page _ (λ m k. hides sv me.id other w m k))
