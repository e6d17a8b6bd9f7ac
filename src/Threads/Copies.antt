-- ===== src/Threads/Copies.antt =====
-- Copies of threads: duplicateChatThread and branchThreadFromMessage
-- (src/intelligence/intelligence.service.ts).
use mathlib.Core.List.{append-nil, append_assoc}
use auth_backend.Base.{
  ℕ, ◌+◌, ◌<◌, ◌≡◌, refl, ap, sym, ◌∙◌, true, false, not, some, List, [], ◌∷◌, ◌++◌, Memᴰ, map,
  filter, any, any-mem, and-true, if◌then◌else◌, inl, inr, Bool-cases, ==_refl, arith, ◌==◌,
  text_or,
}
use auth_backend.Base.Text.{concat}
use auth_backend.Model.{World}
use auth_backend.Model.Ai.{Thread, ThreadMessage}
use auth_backend.Action.{ok, err, unknown_argument}
use auth_backend.Services.{Services}
use auth_backend.Threads.{
  said, of_chat, thread_by, message_of, split_at, message_has_id, create_all, shown_title, copy_to,
  new_thread, history, duplicate_chat_thread, branch_thread_from_message, given_copy, unknown_in,
}

abbrev numbered : ℕ → List (ℕ → ThreadMessage) → List ThreadMessage
numbered n [] = []
numbered n (make ∷ makes) = make n ∷ numbered (n + 1) makes

create_all-numbered :
    (makes : List (ℕ → ThreadMessage)) (w : World)
    → (create_all makes w).ai.thread_messages ≡ w.ai.thread_messages ++ numbered w.next_id makes
create_all-numbered [] w = sym (append-nil w.ai.thread_messages)
create_all-numbered (make ∷ makes) w =
    create_all-numbered makes _ ∙ append_assoc w.ai.thread_messages _ _

create_all-threads :
    (makes : List (ℕ → ThreadMessage)) (w : World) → (create_all makes w).ai.threads ≡ w.ai.threads
create_all-threads [] w = refl
create_all-threads (make ∷ makes) w = create_all-threads makes _

module _ (sv : Services) (chat : ℕ) where
  filter-numbered :
      (ms : List ThreadMessage) (n : ℕ)
      → map said (filter (of_chat chat) (numbered n (map (copy_to sv chat) ms))) ≡ map said ms
  filter-numbered [] n = refl
  filter-numbered (m ∷ ms) n =
      rw (==_refl chat, filter) (ap (λ xs. said m ∷ xs) (filter-numbered ms (n + 1)))

  filter-not-numbered :
      (ms : List ThreadMessage) (n : ℕ)
      → filter (λ m. not (of_chat chat m)) (numbered n (map (copy_to sv chat) ms)) ≡ []
  filter-not-numbered [] n = refl
  filter-not-numbered (m ∷ ms) n = rw (==_refl chat, filter) (filter-not-numbered ms (n + 1))

  module _ (ys : List ThreadMessage) where
    filter-append_others :
        (xs : List ThreadMessage)
        → ((m : ThreadMessage) → Memᴰ m xs → of_chat chat m ≡ false)
        → filter (of_chat chat) (xs ++ ys) ≡ filter (of_chat chat) ys
    filter-append_others [] others = refl
    filter-append_others (x ∷ xs) others =
        rw (others x (Memᴰ.head refl), filter)
          (filter-append_others xs (λ m k. others m (Memᴰ.tail k)))

    filter-not-append_others :
        (xs : List ThreadMessage)
        → ((m : ThreadMessage) → Memᴰ m xs → of_chat chat m ≡ false)
        → filter (λ m. not (of_chat chat m)) (xs ++ ys)
          ≡ xs ++ filter (λ m. not (of_chat chat m)) ys
    filter-not-append_others [] others = refl
    filter-not-append_others (x ∷ xs) others =
        rw (others x (Memᴰ.head refl), filter)
          (ap (λ zs. x ∷ zs) (filter-not-append_others xs (λ m k. others m (Memᴰ.tail k))))

split_at-eq-some :
    (i : ℕ) (ms : List ThreadMessage)
    → any (message_has_id i) ms ≡ true
    → (p : List ThreadMessage × ThreadMessage × List ThreadMessage) × (split_at i ms ≡ some p)
split_at-eq-some i [] there = absurd (ground (arith, there))
split_at-eq-some i (m ∷ ms) there = elim (Bool-cases (m.id == i)) [
  | inl here ↦ (([], m, ms), rw (here, if◌then◌else◌) refl)
  | inr away ↦
      let ((before, x, after), e) = split_at-eq-some i ms (ground (arith, away, there)) in
      ((m ∷ before, x, after), rw (away, if◌then◌else◌, e) refl)
]

unknown_in-given_copy :
    (now chat : ℕ) (before : List ThreadMessage) (m : ThreadMessage)
    → unknown_in (map (given_copy now chat) (before ++ m ∷ [])) ≡ some "userId"
unknown_in-given_copy now chat [] m = refl
unknown_in-given_copy now chat (b ∷ before) m = refl

module _ (sv : Services) (now user_id thread_id : ℕ) (w : World) (t : Thread)
    (owned : sv.find_first (thread_by user_id thread_id) w.ai.threads ≡ some t) where
  -- When the owner of a thread duplicates it, a new thread of the owner comes back, whose messages
  -- have the contents, roles and times of those of the thread, in order of time; all the messages
  -- of other threads are as they were.
  pub thread_messages-duplicate_chat_thread :
      (fresh : (m : ThreadMessage) → Memᴰ m w.ai.thread_messages → m.chat_id < w.next_id)
      → let out = duplicate_chat_thread sv now user_id thread_id w in
        (copy : Thread) × (out.0 ≡ ok copy)
        × (copy.user_id ≡ some user_id)
        × (out.1.ai.threads ≡ w.ai.threads ++ copy ∷ [])
        × (map said (filter (of_chat copy.id) out.1.ai.thread_messages)
            ≡ map said (history sv thread_id w))
        × (filter (λ m. not (of_chat copy.id m)) out.1.ai.thread_messages ≡ w.ai.thread_messages)
  unfolding duplicate_chat_thread
  thread_messages-duplicate_chat_thread fresh = rw owned (
    copy,
    refl,
    refl,
    create_all-threads makes started,
    ap (λ ms. map said (filter (of_chat w.next_id) ms)) (create_all-numbered makes started)
        ∙ ap (λ ms. map said ms)
            (filter-append_others sv w.next_id (numbered (w.next_id + 1) makes) w.ai.thread_messages
              others)
        ∙ filter-numbered sv w.next_id (history sv t.id w) (w.next_id + 1)
        ∙ ap (λ i. map said (history sv i w)) is_thread,
    ap (λ ms. filter (λ m. not (of_chat w.next_id m)) ms) (create_all-numbered makes started)
        ∙ filter-not-append_others sv w.next_id (numbered (w.next_id + 1) makes)
            w.ai.thread_messages others
        ∙ ap (λ ms. w.ai.thread_messages ++ ms)
            (filter-not-numbered sv w.next_id (history sv t.id w) (w.next_id + 1))
        ∙ append-nil w.ai.thread_messages,
  )
    where
      copy : Thread
      copy =
          new_thread sv now user_id (concat (text_or t.title "Chat Thread" ∷ " (Copy)" ∷ []))
            w.next_id

      makes : List (ℕ → ThreadMessage)
      makes = map (copy_to sv w.next_id) (history sv t.id w)

      started : World
      started =
          let a = w.ai in
          record w { next_id = w.next_id + 1; ai = record a { threads = a.threads ++ copy ∷ [] } }

      is_thread : t.id ≡ thread_id
      is_thread =
          ground (arith, (sv.find_first_some (thread_by user_id thread_id) w.ai.threads owned).1)

      others : (m : ThreadMessage) → Memᴰ m w.ai.thread_messages → of_chat w.next_id m ≡ false
      others m k = ground (arith, fresh m k)

  -- Branching a thread of the user from a message of it never succeeds: it throws after a new
  -- thread was created, which is left behind without any message.
  pub branch_thread_from_message_fails :
      (message_id : ℕ) (m : ThreadMessage)
      (found : sv.find_first (message_of thread_id message_id) w.ai.thread_messages ≡ some m)
      → let out = branch_thread_from_message sv now user_id thread_id message_id w in
        (branch : Thread) × (out.0 ≡ err (unknown_argument "userId"))
        × (out.1.ai.threads ≡ w.ai.threads ++ branch ∷ [])
        × (out.1.ai.thread_messages ≡ w.ai.thread_messages)
  unfolding branch_thread_from_message
  branch_thread_from_message_fails message_id m found =
      let (k, e) =
        sv.find_first_some (message_of thread_id message_id) w.ai.thread_messages found in
      let (is_it, mine) = and-true (m.id == message_id) (of_chat thread_id m) e in
      let (parts, f) = split_at-eq-some message_id (history sv thread_id w) (
        any-mem (message_has_id message_id) m (history sv thread_id w)
          (sv.find_ascending_complete (of_chat thread_id) (λ r. r.created_at) w.ai.thread_messages m
            k mine)
          is_it) in
      let (before, x, after) = parts in
      let refused = unknown_in-given_copy now w.next_id before x in
      (
        new_thread sv now user_id (concat (shown_title t.title ∷ " (branched)" ∷ [])) w.next_id,
        rw (owned, found, f, refused) refl,
        rw (owned, found, f, refused) refl,
        rw (owned, found, f, refused) refl,
      )
