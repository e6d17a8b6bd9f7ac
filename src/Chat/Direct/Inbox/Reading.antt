-- ===== src/Chat/Direct/Inbox/Reading.antt =====
-- What a page of a conversation shows, and what it marks as read.
use mathlib.Core.List.{reverse}
use mathlib.Core.List.Memᴰ
use auth_backend.Base.{
  ℕ, String, ◌≡◌, inl, inr, refl, sym, ap, ◌∙◌, ◌≤◌, Bool, true, false, ◌&&◌, not, List, [], ◌∷◌,
  ◌++◌, any, Memᴰ, any-mem, any-append, any-eq-false, Bool-cases, arith, ==_refl, filter-mem, drop,
  length, length-take, length-reverse, mem-take, mem-drop, mem-reverse, ◌*◌, ◌-◌, ◌==◌, ltb,
  if◌then◌else◌,
}
use auth_backend.Model.{World, Message, MessageRead}
use auth_backend.Action.{Result, ok, err, plain_error, continue, pure, ◌>>=◌}
use auth_backend.Services.{Services}
use auth_backend.Chat.Store.{create_new, message_reads_table}
use auth_backend.Chat.Direct.{is_read, page_of, read_by}
use auth_backend.Chat.Direct.Inbox.{
  ShownMessage, decrypt_all, unread_in, mark_read, visible_between, get_messages_for_conversation,
}

-- Each message is shown with the text that its content decrypts to.
pub data Shows (sv : Services) : List Message → List ShownMessage → Type 0 where
  end : Shows sv [] []
  next :
      (m : Message) (text : String) {ms : List Message} {ss : List ShownMessage}
      → sv.decrypt m.content ≡ ok text
      → Shows sv ms ss
      → Shows sv (m ∷ ms) (record { message = m; text = text } ∷ ss)

module _ (sv : Services) where
  abbrev pub add : Message → Result String → Result (List ShownMessage) → Result (List ShownMessage)
  add m (err x) rest = err x
  add m (ok text) (err x) = err x
  add m (ok text) (ok rest) = ok (record { message = m; text = text } ∷ rest)

  abbrev pub decrypt_each : List Message → Result (List ShownMessage)
  decrypt_each [] = ok []
  decrypt_each (m ∷ ms) = add m (sv.decrypt m.content) (decrypt_each ms)

  -- Nothing is written while the texts are decrypted.
  pub decrypt_all_eq : (ms : List Message) (w : World) → decrypt_all sv ms w ≡ (decrypt_each ms, w)
  unfolding decrypt_all
  decrypt_all_eq [] w = refl
  decrypt_all_eq (m ∷ ms) w = of (sv.decrypt m.content) (decrypt_all_eq ms w)
    where
      last :
          (text : String) (r : Result (List ShownMessage))
          → continue (λ rest. pure (record { message = m; text = text } ∷ rest)) (r, w)
            ≡ (add m (ok text) r, w)
      last text (ok rest) = refl
      last text (err x) = refl

      of :
          (r : Result String)
          → decrypt_all sv ms w ≡ (decrypt_each ms, w)
          → continue
              (λ text.
                decrypt_all sv ms >>= (λ rest. pure (record { message = m; text = text } ∷ rest)))
              (r, w)
            ≡ (add m r (decrypt_each ms), w)
      of (err x) e = refl
      of (ok text) e = ap (continue _) e ∙ last text (decrypt_each ms)

  add-ok :
      (m : Message) (r : Result String) (q : Result (List ShownMessage)) (ss : List ShownMessage)
      → add m r q ≡ ok ss
      → (text : String) × (rest : List ShownMessage) × (r ≡ ok text)
        × (q ≡ ok rest)
        × (ss ≡ record { message = m; text = text } ∷ rest)
  add-ok m (err x) q ss e = cc
  add-ok m (ok text) (err x) ss e = cc
  add-ok m (ok text) (ok rest) ss e = (text, rest, refl, refl, sym (ground arith))

  pub decrypt_each-Shows :
      (ms : List Message) (ss : List ShownMessage) → decrypt_each ms ≡ ok ss → Shows sv ms ss
  decrypt_each-Shows [] ss e = let none_shown : [] ≡ ss = ground arith in rw (← none_shown) end
  decrypt_each-Shows (m ∷ ms) ss e =
      let (text, rest, good, more, both) = add-ok m (sv.decrypt m.content) (decrypt_each ms) ss e in
      rw both (next m text good (decrypt_each-Shows ms rest more))

  Shows-length :
      {ms : List Message} {ss : List ShownMessage} → Shows sv ms ss → length ss ≡ length ms
  Shows-length end = refl
  Shows-length (next m text good rest) = omega (arith, Shows-length rest)

  pub Shows-mem :
      {ms : List Message} {ss : List ShownMessage} (s : ShownMessage)
      → Shows sv ms ss
      → Memᴰ s ss
      → Memᴰ s.message ms × (sv.decrypt s.message.content ≡ ok s.text)
  Shows-mem s end k = elim k [ ]
  Shows-mem s (next m text good rest) k = elim (Memᴰ.cases_cons k) [
    | inl e ↦ (Memᴰ.head (ap (λ (s : ShownMessage). s.message) e), rw e good)
    | inr later ↦ let (n, d) = Shows-mem s rest later in (Memᴰ.tail n, d)
  ]

  pub mem-Shows :
      {ms : List Message} {ss : List ShownMessage} (m : Message) (text : String)
      → Shows sv ms ss
      → Memᴰ m ms
      → sv.decrypt m.content ≡ ok text
      → Memᴰ (record { message = m; text = text }) ss
  mem-Shows m text end k d = elim k [ ]
  mem-Shows m text (next n t good rest) k d = elim (Memᴰ.cases_cons k) [
    | inl e ↦ Memᴰ.head (ground (arith, e, good, d))
    | inr later ↦ Memᴰ.tail (mem-Shows m text rest later d)
  ]

abbrev any_reads : ℕ → ℕ → World → Bool
any_reads i user_id w = any (read_by i user_id) w.chat.message_reads

abbrev row : ℕ → Message → ℕ → MessageRead
row user_id m i = record { id = i; message_id = m.id; user_id = user_id }

abbrev after : ℕ → List Message → World → World
after user_id ms w = (mark_read user_id ms w).1

-- The column has no unique constraint: a row is added each time.
marked_one :
    (user_id : ℕ) (m : Message) (w : World)
    → (create_new message_reads_table (λ r s. false) (row user_id m) w).chat.message_reads
      ≡ w.chat.message_reads ++ row user_id m w.next_id ∷ []
marked_one user_id m w =
    rw (any-eq-false (λ s. false) w.chat.message_reads (λ r k. refl), if◌then◌else◌) refl

-- Rows are only added, and one for each message.
after-keeps :
    (i user_id reader : ℕ) (ms : List Message) (w : World)
    → any_reads i reader w ≡ true
    → any_reads i reader (after user_id ms w) ≡ true
after-keeps i user_id reader [] w h = h
after-keeps i user_id reader (m ∷ ms) w h =
    after-keeps i user_id reader ms
      (create_new message_reads_table (λ r s. false) (row user_id m) w)
      (rw
        (
          marked_one user_id m w,
          any-append (read_by i reader) w.chat.message_reads (row user_id m w.next_id ∷ []),
          h,
        )
        refl)

after-marks :
    (user_id : ℕ) (m : Message) (ms : List Message) (w : World)
    → Memᴰ m ms
    → is_read (after user_id ms w) user_id m ≡ true
after-marks user_id m [] w k = elim k [ ]
after-marks user_id m (n ∷ ns) w k = elim (Memᴰ.cases_cons k) [
  | inl e ↦
      after-keeps m.id user_id user_id ns
        (create_new message_reads_table (λ r s. false) (row user_id n) w)
        (rw (marked_one user_id n w) (
          any-mem (read_by m.id user_id) (row user_id n w.next_id) _
            (Memᴰ.append_right w.chat.message_reads (Memᴰ.head refl))
            (rw (ap (λ (x : Message). x.id) e, ==_refl n.id, ==_refl user_id) refl)))
  | inr later ↦
      after-marks user_id m ns (create_new message_reads_table (λ r s. false) (row user_id n) w)
        later
]

module _ (sv : Services) (user_id other page_size page : ℕ) (w : World) where
  abbrev chosen : List Message
  chosen =
      page_of page_size page
        (sv.find_ordered (visible_between w user_id other) (λ m. m.timestamp) w.chat.messages)

  abbrev out : Result (List ShownMessage) × World
  out = get_messages_for_conversation sv user_id other page_size page w

  refused :
      (page == 0 && ltb 0 page_size) ≡ true
      → out.0 ≡ err (plain_error "Invalid value for skip argument")
  unfolding get_messages_for_conversation
  refused bad = rw (bad, if◌then◌else◌) refl

  returned :
      (page == 0 && ltb 0 page_size) ≡ false
      → out ≡ (decrypt_each sv (reverse chosen), after user_id (unread_in w user_id chosen) w)
  unfolding get_messages_for_conversation
  returned good =
      rw (good, if◌then◌else◌)
        (decrypt_all_eq sv (reverse chosen) (after user_id (unread_in w user_id chosen) w))

  -- A call that returns marks what it shows and decrypts it.
  page-parts :
      (shown : List ShownMessage)
      → out.0 ≡ ok shown
      → Shows sv (reverse chosen) shown × (out.1 ≡ after user_id (unread_in w user_id chosen) w)
  page-parts shown e = elim (Bool-cases (page == 0 && ltb 0 page_size)) [
    | inl bad ↦
        let clash : err (plain_error "Invalid value for skip argument") ≡ ok shown =
          sym (refused bad) ∙ e in
        cc
    | inr good ↦
        let both = returned good in
        (
          decrypt_each-Shows sv (reverse chosen) shown (sym (ap (λ p. p.0) both) ∙ e),
          ap (λ p. p.1) both,
        )
  ]

  -- When `getMessagesForConversation` returns, it shows at most a page of messages.
  length-get_messages_for_conversation :
      (shown : List ShownMessage) → out.0 ≡ ok shown → length shown ≤ page_size
  length-get_messages_for_conversation shown e = omega (
    arith,
    Shows-length sv (page-parts shown e).0,
    length-reverse chosen,
    length-take page_size (
        drop ((page - 1) * page_size)
          (sv.find_ordered (visible_between w user_id other) (λ m. m.timestamp) w.chat.messages)),
  )

  chosen-mem :
      (m : Message)
      → Memᴰ m chosen
      → Memᴰ m w.chat.messages × (visible_between w user_id other m ≡ true)
  chosen-mem m k =
      sv.find_ordered_sound (visible_between w user_id other) (λ m. m.timestamp) w.chat.messages m
        (mem-drop ((page - 1) * page_size) _ (mem-take page_size _ k))

  read_after :
      (m : Message)
      → Memᴰ m chosen
      → m.receiver_id ≡ user_id
      → is_read (after user_id (unread_in w user_id chosen) w) user_id m ≡ true
  read_after m k mine = elim (Bool-cases (is_read w user_id m)) [
    | inl already ↦ after-keeps m.id user_id user_id (unread_in w user_id chosen) w already
    | inr unread ↦ after-marks user_id m (unread_in w user_id chosen) w (
        filter-mem (λ m. m.receiver_id == user_id && not (is_read w user_id m)) chosen m k
          (rw (mine, ==_refl user_id, unread) refl))
  ]

  -- When `getMessagesForConversation` returns, each message that it shows is stored, is between
  -- the two users, is not deleted by the user, is shown with the text that its content decrypts to,
  -- and is read by the user afterwards if the user is its receiver.
  get_messages_for_conversation-is_read :
      (shown : List ShownMessage)
      → out.0 ≡ ok shown
      → (s : ShownMessage) → Memᴰ s shown
      → Memᴰ s.message w.chat.messages
        × (visible_between w user_id other s.message ≡ true)
        × (sv.decrypt s.message.content ≡ ok s.text)
        × (s.message.receiver_id ≡ user_id → is_read out.1 user_id s.message ≡ true)
  get_messages_for_conversation-is_read shown e s k =
      let (shows, world) = page-parts shown e in
      let (n, text) = Shows-mem sv s shows k in
      let (stored, visible) = chosen-mem s.message (mem-reverse chosen n) in
      (stored, visible, text, λ mine. rw world (read_after s.message (mem-reverse chosen n) mine))
