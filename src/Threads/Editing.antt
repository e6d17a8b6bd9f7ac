-- ===== src/Threads/Editing.antt =====
-- What an edit of a message and a retry from it leave of a thread: editThreadMessage and
-- retryFromMessage (src/intelligence/intelligence.service.ts).
use mathlib.Core.Path.{subst}
use auth_backend.Base.{
  ℕ, ◌<◌, ◌≤◌, ◌≡◌, refl, ap, sym, ◌∙◌, ◌⊎◌, String, true, false, not, ◌&&◌, some, List, [], ◌∷◌,
  Memᴰ, any, filter, length, inl, inr, Bool-cases, ==_iff, ==_refl, arith, if◌then◌else◌, ◌==◌, ltb,
  leb, and-true, mem-any, any-mem, filter-mem, filter-cong, length-filter-filter, only_one,
}
use auth_backend.Model.{World}
use auth_backend.Model.Ai.{Thread, ThreadMessage}
use auth_backend.Action.{ok, succeeds}
use auth_backend.Services.{Services}
use auth_backend.Store.{replace}
use auth_backend.Store.Rows.{replace-mem}
use auth_backend.Threads.{
  of_chat, message_has_id, message_of, thread_by, split_at, ids_of, is_one_of, history,
  edit_thread_message, retry_from_message,
}
use auth_backend.Threads.Splitting.{IsSplit, split_at-IsSplit}

is_one_of-ids_of :
    (ms : List ThreadMessage) (r : ThreadMessage)
    → is_one_of (ids_of ms) r ≡ any (message_has_id r.id) ms
is_one_of-ids_of [] r = refl
is_one_of-ids_of (m ∷ ms) r = ground (arith, is_one_of-ids_of ms r)

module _ (sv : Services) (user_id thread_id message_id : ℕ) (w : World) (t : Thread)
    (m : ThreadMessage) (owned : sv.find_first (thread_by user_id thread_id) w.ai.threads ≡ some t)
    (found : sv.find_first (message_of thread_id message_id) w.ai.thread_messages ≡ some m)
    (one_id : (i : ℕ) → length (filter (message_has_id i) w.ai.thread_messages) ≤ 1)
    (one_time : (r s : ThreadMessage)
      → Memᴰ r w.ai.thread_messages
      → Memᴰ s w.ai.thread_messages
      → (of_chat thread_id r ≡ true) × (of_chat thread_id s ≡ true)
      → r.created_at ≡ s.created_at
      → r.id ≡ s.id) where
  same_row :
      (r s : ThreadMessage)
      → Memᴰ r w.ai.thread_messages
      → Memᴰ s w.ai.thread_messages
      → r.id ≡ s.id
      → r ≡ s
  same_row r s k n e =
      only_one (filter (message_has_id s.id) w.ai.thread_messages) r s (one_id s.id)
        (filter-mem (message_has_id s.id) w.ai.thread_messages r k ((==_iff r.id s.id).1 e))
        (filter-mem (message_has_id s.id) w.ai.thread_messages s n (==_refl s.id))

  is_found : Memᴰ m w.ai.thread_messages × (m.id ≡ message_id) × (of_chat thread_id m ≡ true)
  is_found =
      let (k, e) =
        sv.find_first_some (message_of thread_id message_id) w.ai.thread_messages found in
      (k, ground (arith, e), (and-true (m.id == message_id) (of_chat thread_id m) e).1)

  split :
      (before : List ThreadMessage) × (after : List ThreadMessage) × (split_at message_id
          (history sv thread_id w)
        ≡ some (before, m, after))
      × IsSplit message_id (history sv thread_id w) before m after
  split =
      let (k, e, mine) = is_found in
      let known =
        sv.find_ascending_complete (of_chat thread_id) (λ r. r.created_at) w.ai.thread_messages m k
          mine in
      let (before, x, after, f, s) =
        split_at-IsSplit message_id (history sv thread_id w)
          (sv.find_ascending-IsAscending (of_chat thread_id) (λ r. r.created_at)
            w.ai.thread_messages)
          (any-mem (message_has_id message_id) m (history sv thread_id w) known
            ((==_iff m.id message_id).1 e))
          few in
      let (l, mine_too) =
        sv.find_ascending_sound (of_chat thread_id) (λ r. r.created_at) w.ai.thread_messages x
          s.known in
      let (g, h) =
        subst
          (λ y.
            (split_at message_id (history sv thread_id w) ≡ some (before, y, after))
            × IsSplit message_id (history sv thread_id w) before y after)
          (same_row x m l k (s.is_it ∙ sym e)) (f, s) in
      (before, after, g, h)
    where
      few : length (filter (message_has_id message_id) (history sv thread_id w)) ≤ 1
      few = omega (
        arith,
        one_id message_id,
        sv.length-filter-find_ascending (of_chat thread_id) (message_has_id message_id)
            (λ r. r.created_at) w.ai.thread_messages,
        length-filter-filter (of_chat thread_id) (message_has_id message_id) w.ai.thread_messages,
      )

  module _ (before after : List ThreadMessage)
      (s : IsSplit message_id (history sv thread_id w) before m after) (r : ThreadMessage)
      (known : Memᴰ r w.ai.thread_messages) where
    comes_after :
        any (message_has_id r.id) after ≡ true
        → (of_chat thread_id r ≡ true) × (m.created_at < r.created_at)
    comes_after in_after =
        let (x, k, e) = mem-any (message_has_id r.id) after in_after in
        let (l, le) = s.later x k in
        let (n, mine) =
          sv.find_ascending_sound (of_chat thread_id) (λ r. r.created_at) w.ai.thread_messages x
            l in
        let is_r : x ≡ r = same_row x r n known ((==_iff x.id r.id).0 e) in
        (
          ap (of_chat thread_id) (sym is_r) ∙ mine,
          later_than x k n mine le (ap (λ (y : ThreadMessage). y.created_at) is_r)
              (Bool-cases (m.created_at == x.created_at)),
        )
      where
        later_than :
            (x : ThreadMessage)
            → Memᴰ x after
            → Memᴰ x w.ai.thread_messages
            → of_chat thread_id x ≡ true
            → m.created_at ≤ x.created_at
            → x.created_at ≡ r.created_at
            → ((m.created_at == x.created_at) ≡ true) ⊎ ((m.created_at == x.created_at) ≡ false)
            → m.created_at < r.created_at
        later_than x k n mine le e (inr other) = ground (arith, le, e, other)
        later_than x k n mine le e (inl equal) =
            let (l, is_it, ours) = is_found in
            let again : any (message_has_id message_id) after ≡ true =
              any-mem (message_has_id message_id) x after k (
                (==_iff x.id message_id).1 (
                  sym (one_time m x l n (ours, mine) ((==_iff m.created_at x.created_at).0 equal))
                  ∙ is_it)) in
            cc s.once

    -- A message of the thread at the time of the message, or later.
    comes_from :
        of_chat thread_id r ≡ true
        → (r.created_at ≤ m.created_at) ⊎ ((r ≡ m) ⊎ (any (message_has_id r.id) after ≡ true))
    comes_from mine =
        elim (s.complete r (
          sv.find_ascending_complete (of_chat thread_id) (λ r. r.created_at) w.ai.thread_messages r
            known mine)) [
              | inl b ↦ inl (s.earlier r b)
              | inr rest ↦ elim rest [
                | inl same ↦ inr (inl same)
                | inr a ↦ inr (inr (any-mem (message_has_id r.id) r after a (==_refl r.id)))
              ]
            ]

    edit_test : is_one_of (ids_of after) r ≡ (of_chat thread_id r && ltb m.created_at r.created_at)
    edit_test = is_one_of-ids_of after r ∙ equal (Bool-cases (any (message_has_id r.id) after))
      where
        equal :
            (any (message_has_id r.id) after ≡ true) ⊎ (any (message_has_id r.id) after ≡ false)
            → any (message_has_id r.id) after
              ≡ (of_chat thread_id r && ltb m.created_at r.created_at)
        equal (inl yes_after) =
            let (mine, lt) = comes_after yes_after in ground (arith, yes_after, mine, lt)
        equal (inr not_after) = elim (Bool-cases (of_chat thread_id r)) [
          | inr elsewhere ↦ ground (arith, not_after, elsewhere)
          | inl mine ↦ elim (comes_from mine) [
            | inl le ↦ ground (arith, not_after, mine, le)
            | inr rest ↦ elim rest [
              | inl same ↦
                  ground (arith, not_after, mine, ap (λ (y : ThreadMessage). y.created_at) same)
              | inr in_after ↦ cc
            ]
          ]
        ]

    retry_test :
        is_one_of (ids_of (m ∷ after)) r ≡ (of_chat thread_id r && leb m.created_at r.created_at)
    retry_test = elim (Bool-cases (m.id == r.id)) [
      | inl same ↦
          let is_m : m ≡ r = same_row m r is_found.0 known ((==_iff m.id r.id).0 same) in
          let mine : of_chat thread_id r ≡ true = ap (of_chat thread_id) (sym is_m) ∙ is_found.2 in
          let time = ap (λ (y : ThreadMessage). y.created_at) is_m in
          ground (arith, same, mine, time)
      | inr other ↦ elim (Bool-cases (of_chat thread_id r)) [
        | inr elsewhere ↦ ground (arith, other, edit_test, elsewhere)
        | inl mine ↦ elim (Bool-cases (m.created_at == r.created_at)) [
          | inl equal ↦ absurd (
              ground (
                arith,
                other,
                one_time m r is_found.0 known (is_found.2, mine)
                    ((==_iff m.created_at r.created_at).0 equal),
              ))
          | inr apart ↦ ground (arith, other, edit_test, mine, apart)
        ]
      ]
    ]

  -- When the owner of a thread edits a message of it, this succeeds: the message has the new
  -- content, the later messages of the thread are gone, and every other message is as it was. The
  -- ids of messages are unique, and the messages of the thread have different times.
  pub thread_messages-edit_thread_message :
      (content : String)
      → let out = edit_thread_message sv user_id thread_id message_id content w in
        (out.0 ≡ ok tt)
        × (out.1.ai.thread_messages
            ≡ filter
                (λ r. not (of_chat thread_id r && ltb m.created_at r.created_at))
                (replace
                  (message_has_id message_id)
                  (λ r. record r { content = content })
                  w.ai.thread_messages))
  unfolding edit_thread_message
  thread_messages-edit_thread_message content =
      let (before, after, e, s) = split in
      rw (owned, found, e, present, if◌then◌else◌)
        (
          refl,
          filter-cong (λ r. not (is_one_of (ids_of after) r))
              (λ r. not (of_chat thread_id r && ltb m.created_at r.created_at))
              (replace (message_has_id message_id) (λ r. record r { content = content })
                w.ai.thread_messages)
              (λ r k. as_before before after s r k),
        )
    where
      present : any (message_has_id message_id) w.ai.thread_messages ≡ true
      present =
          any-mem (message_has_id message_id) m w.ai.thread_messages is_found.0
            ((==_iff m.id message_id).1 is_found.1)

      as_before :
          (before after : List ThreadMessage)
          → IsSplit message_id (history sv thread_id w) before m after
          → (r : ThreadMessage)
          → Memᴰ r (
              replace
                (message_has_id message_id)
                (λ r. record r { content = content })
                w.ai.thread_messages)
          → not (is_one_of (ids_of after) r)
            ≡ not (of_chat thread_id r && ltb m.created_at r.created_at)
      as_before before after s r k =
          let (x, n, e) =
            replace-mem (message_has_id message_id) (λ r. record r { content = content })
              w.ai.thread_messages r k in
          moved x e (edit_test before after s x n) (Bool-cases (message_has_id message_id x))
        where
          moved :
              (x : ThreadMessage)
              → r ≡ (if message_has_id message_id x then record x { content = content } else x)
              → is_one_of (ids_of after) x ≡ (of_chat thread_id x && ltb m.created_at x.created_at)
              → (message_has_id message_id x ≡ true) ⊎ (message_has_id message_id x ≡ false)
              → not (is_one_of (ids_of after) r)
                ≡ not (of_chat thread_id r && ltb m.created_at r.created_at)
          moved x e t (inl here) =
              let changed : r ≡ record x { content = content } =
                e ∙ rw (here, if◌then◌else◌) refl in
              rw changed (ap not t)
          moved x e t (inr away) =
              let kept : r ≡ x = e ∙ rw (away, if◌then◌else◌) refl in rw kept (ap not t)

  -- When the owner of a thread retries from a message of it, this succeeds: the message and the
  -- later messages of the thread are gone, and every other message is as it was. The ids of messages
  -- are unique, and the messages of the thread have different times.
  pub thread_messages-retry_from_message :
      let out = retry_from_message sv user_id thread_id message_id w in
      (succeeds out.0 ≡ true)
      × (out.1.ai.thread_messages
          ≡ filter
              (λ r. not (of_chat thread_id r && leb m.created_at r.created_at))
              w.ai.thread_messages)
  unfolding retry_from_message
  thread_messages-retry_from_message =
      let (before, after, e, s) = split in
      rw (owned, found, e)
        (
          refl,
          filter-cong (λ r. not (is_one_of (ids_of (m ∷ after)) r))
              (λ r. not (of_chat thread_id r && leb m.created_at r.created_at)) w.ai.thread_messages
              (λ r k. ap not (retry_test before after s r k)),
        )
