-- ===== src/Chat/Direct/Deletion/Refused.antt =====
-- What deleting messages does: the marks of `deleteConversation`, and the deletions that the
-- foreign keys refuse.
use mathlib.Core.List.Memᴰ
use auth_backend.Base.{
  ℕ, ◌≡◌, ◌⊎◌, inl, inr, refl, ap, ◌∙◌, Bool, true, false, ◌||◌, not, List, [], ◌∷◌, any, all, Memᴰ,
  any-mem, mem-any, any-append, Bool-cases, arith, ==_refl, ◌==◌, if◌then◌else◌, some,
}
use auth_backend.Model.{World, HttpContext, User, Message, MessageDeletion}
use auth_backend.Action.{err, reference_violation}
use auth_backend.Services.{Services}
use auth_backend.Chat.Store.{create_new, message_deletions_table}
use auth_backend.Chat.Direct.{is_between, deleted_by}
use auth_backend.Chat.Direct.Deletion.{
  is_referred_to, is_deletable, same_deletion, mark_deleted, delete_both, delete_conversation,
}

abbrev row : ℕ → Message → ℕ → MessageDeletion
row user_id m i = record { id = i; message_id = m.id; user_id = user_id }

abbrev pub after : ℕ → List Message → World → World
after user_id ms w = (mark_deleted user_id ms w).1

abbrev pub marked : ℕ → ℕ → World → Bool
marked i user_id w = any (deleted_by i user_id) w.chat.message_deletions

-- One row is added, or the message was marked before.
abbrev one : ℕ → Message → World → World
one user_id m w = create_new message_deletions_table same_deletion (row user_id m) w

one-keeps :
    (i reader user_id : ℕ) (m : Message) (w : World)
    → marked i reader w ≡ true
    → marked i reader (one user_id m w) ≡ true
one-keeps i reader user_id m w h =
    elim (Bool-cases (any (same_deletion (row user_id m w.next_id)) w.chat.message_deletions)) [
      | inl there ↦ rw (there, if◌then◌else◌) h
      | inr new ↦
          rw
            (
              new,
              if◌then◌else◌,
              any-append (deleted_by i reader) w.chat.message_deletions
                  (row user_id m w.next_id ∷ []),
              h,
            )
            refl
    ]

one-marks : (user_id : ℕ) (m : Message) (w : World) → marked m.id user_id (one user_id m w) ≡ true
one-marks user_id m w =
    elim (Bool-cases (any (same_deletion (row user_id m w.next_id)) w.chat.message_deletions)) [
      | inl there ↦ rw (there, if◌then◌else◌) there
      | inr new ↦
          rw (new, if◌then◌else◌)
            (any-mem (deleted_by m.id user_id) (row user_id m w.next_id) _
              (Memᴰ.append_right w.chat.message_deletions (Memᴰ.head refl))
              (rw (==_refl m.id, ==_refl user_id) refl))
    ]

after-keeps :
    (i reader user_id : ℕ) (ms : List Message) (w : World)
    → marked i reader w ≡ true
    → marked i reader (after user_id ms w) ≡ true
after-keeps i reader user_id [] w h = h
after-keeps i reader user_id (m ∷ ms) w h =
    after-keeps i reader user_id ms (one user_id m w) (one-keeps i reader user_id m w h)

pub after-marks :
    (user_id : ℕ) (m : Message) (ms : List Message) (w : World)
    → Memᴰ m ms
    → marked m.id user_id (after user_id ms w) ≡ true
after-marks user_id m [] w k = elim k [ ]
after-marks user_id m (n ∷ ns) w k = elim (Memᴰ.cases_cons k) [
  | inl e ↦ after-keeps m.id user_id user_id ns (one user_id n w) (rw e (one-marks user_id n w))
  | inr later ↦ after-marks user_id m ns (one user_id n w) later
]

pub after-messages :
    (user_id : ℕ) (ms : List Message) (w : World)
    → (after user_id ms w).chat.messages ≡ w.chat.messages
after-messages user_id [] w = refl
after-messages user_id (m ∷ ms) w = after-messages user_id ms (one user_id m w) ∙ same_messages
  where
    same_messages : (one user_id m w).chat.messages ≡ w.chat.messages
    same_messages =
        elim (Bool-cases (any (same_deletion (row user_id m w.next_id)) w.chat.message_deletions)) [
          | inl there ↦ rw (there, if◌then◌else◌) refl
          | inr new ↦ rw (new, if◌then◌else◌) refl
        ]

-- A stored message with a mark is referred to.
marked-is_referred_to :
    (p : Message → Bool) (m : Message) (user_id : ℕ) (w : World)
    → Memᴰ m w.chat.messages
    → p m ≡ true
    → marked m.id user_id w ≡ true
    → is_referred_to p w ≡ true
marked-is_referred_to p m user_id w k h mark =
    let (d, stored, ofm) = mem-any (deleted_by m.id user_id) w.chat.message_deletions mark in
    let there =
      any-mem (λ d. d.message_id == m.id) d w.chat.message_deletions stored (ground (arith, ofm)) in
    any-mem _ m w.chat.messages k (rw (h, there) (ground arith))

-- The marks are the old ones and the user's.
after-rows :
    (user_id : ℕ) (ms : List Message) (w : World) (d : MessageDeletion)
    → Memᴰ d (after user_id ms w).chat.message_deletions
    → Memᴰ d w.chat.message_deletions ⊎ (d.user_id ≡ user_id)
after-rows user_id [] w d k = inl k
after-rows user_id (m ∷ ms) w d k = elim (after-rows user_id ms (one user_id m w) d k) [
  | inl before ↦ one_row before
  | inr mine ↦ inr mine
]
  where
    one_row :
        Memᴰ d (one user_id m w).chat.message_deletions
        → Memᴰ d w.chat.message_deletions ⊎ (d.user_id ≡ user_id)
    one_row n =
        elim (Bool-cases (any (same_deletion (row user_id m w.next_id)) w.chat.message_deletions)) [
          | inl there ↦ inl (rw (there, if◌then◌else◌) at n)
          | inr new ↦
              elim (Memᴰ.append_cases w.chat.message_deletions (rw (new, if◌then◌else◌) at n)) [
                | inl old ↦ inl old
                | inr added ↦
                    inr (ap (λ (d : MessageDeletion). d.user_id) (Memᴰ.eq_of_singleton added))
              ]
        ]

-- The marks of a message are all of two users.
abbrev pub AreOf : ℕ → ℕ → ℕ → List MessageDeletion → Type 0
AreOf message_id a b ds =
    (d : MessageDeletion)
    → Memᴰ d ds
    → d.message_id ≡ message_id
    → (d.user_id ≡ a) ⊎ (d.user_id ≡ b)

all-AreOf :
    (message_id a b : ℕ) (ds : List MessageDeletion)
    → AreOf message_id a b ds
    → all (λ d. not (d.message_id == message_id) || d.user_id == a || d.user_id == b) ds ≡ true
all-AreOf message_id a b [] h = refl
all-AreOf message_id a b (d ∷ ds) h =
    ground (arith, h d (Memᴰ.head refl), all-AreOf message_id a b ds (λ e k. h e (Memᴰ.tail k)))

module _ (me other : ℕ) (m : Message) (ms : List Message) (w : World) where
  deletable :
      Memᴰ m ms
      → AreOf m.id me other w.chat.message_deletions
      → is_deletable (after me ms w) ms me other m ≡ true
  deletable k h =
      rw
        (
          any-mem (λ n. n.id == m.id) m ms k (==_refl m.id),
          all-AreOf m.id me other (after me ms w).chat.message_deletions later,
        )
        refl
    where
      later : AreOf m.id me other (after me ms w).chat.message_deletions
      later d n e = elim (after-rows me ms w d n) [ inl old ↦ h d old e | inr mine ↦ inl mine ]

  referred :
      Memᴰ m ms
      → Memᴰ m w.chat.messages
      → AreOf m.id me other w.chat.message_deletions
      → is_referred_to (is_deletable (after me ms w) ms me other) (after me ms w) ≡ true
  referred k stored h =
      marked-is_referred_to (is_deletable (after me ms w) ms me other) m me (after me ms w)
        (rw (after-messages me ms w) stored) (deletable k h) (after-marks me m ms w k)

both_refused :
    (sv : Services) (me other : ℕ) (m : Message) (ms : List Message) (w : World)
    → Memᴰ m ms
    → Memᴰ m w.chat.messages
    → AreOf m.id me other w.chat.message_deletions
    → delete_both sv me other ms w ≡ (err reference_violation, after me ms w)
both_refused sv me other m [] w k stored h = elim k [ ]
both_refused sv me other m (n ∷ ns) w k stored h =
    rw (referred me other m (n ∷ ns) w k stored h, if◌then◌else◌) refl

module _ (sv : Services) (ctx : HttpContext) (me : User) (other : ℕ) (w : World) where
  abbrev between : List Message
  between = sv.find_many (is_between me.id other) w.chat.messages

  -- When the two users have a message and nobody else has deleted it, `deleteConversation` never
  -- returns: the messages of the two are marked as deleted by the user, but their deletion is
  -- refused by the foreign key of those marks, and every message stays stored.
  pub delete_conversation_refused :
      (signed_in : ctx.user ≡ some me) (two : (me.id == other) ≡ false) (m : Message)
      → Memᴰ m w.chat.messages
      → is_between me.id other m ≡ true
      → AreOf m.id me.id other w.chat.message_deletions
      → delete_conversation sv ctx (some other) w ≡ (err reference_violation, after me.id between w)
        × ((after me.id between w).chat.messages ≡ w.chat.messages)
  unfolding delete_conversation
  delete_conversation_refused signed_in two m k h only = (
    rw (signed_in, two, if◌then◌else◌)
        (both_refused sv me.id other m between w
          (sv.find_many_complete (is_between me.id other) w.chat.messages m k h) k only),
    after-messages me.id between w,
  )
