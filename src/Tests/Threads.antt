-- ===== src/Tests/Threads.antt =====
-- A thread with three messages, and an allowance of requests.
use mathlib.Core.List.Memᴰ
use Prim.Native.Nat.{min}
use auth_backend.Base.{
  ℕ, leb, ◌-◌, ◌≤◌, ◌≡◌, refl, sym, ap, ◌∙◌, true, not, none, some, [], ◌∷◌, ◌++◌, Memᴰ, map,
  filter, length, arith, ltb, ◌&&◌, inl, inr, ◌⊎◌,
}
use auth_backend.Model.{World}
use auth_backend.Model.Ai.{Thread, ThreadMessage, SearchUsage}
use auth_backend.Action.{ok, err, succeeds, unknown_argument}
use auth_backend.Store.{replace}
use auth_backend.Threads.{
  said, of_chat, message_has_id, history, edit_thread_message, duplicate_chat_thread,
  retry_from_message, branch_thread_from_message,
}
use auth_backend.Threads.Editing.{
  thread_messages-edit_thread_message, thread_messages-retry_from_message,
}
use auth_backend.Threads.Copies.{
  thread_messages-duplicate_chat_thread, branch_thread_from_message_fails,
}
use auth_backend.Usage.Grants.{grants, grants-min}
use auth_backend.Tests.Fixtures.{services, world, no_ai}

abbrev chat : Thread
chat = record { id = 40; title = some "Plans"; created_at = 0; user_id = some 1; project_id = none }

abbrev question : ThreadMessage
question = record { id = 41; content = "why?"; role = "user"; chat_id = 40; created_at = 1 }

abbrev answer : ThreadMessage
answer = record { id = 42; content = "so."; role = "assistant"; chat_id = 40; created_at = 2 }

abbrev talking : World
talking = record world {
  next_id = 50;
  ai = record no_ai { threads = chat ∷ []; thread_messages = question ∷ answer ∷ [] };
}

either : (r : ThreadMessage) → Memᴰ r talking.ai.thread_messages → (r ≡ question) ⊎ (r ≡ answer)
either r m = elim (Memᴰ.cases_cons m) [ inl e ↦ inl e | inr n ↦ inr (Memᴰ.eq_of_singleton n) ]

one_id : (i : ℕ) → length (filter (message_has_id i) talking.ai.thread_messages) ≤ 1
one_id i = ground arith

one_time :
    (r s : ThreadMessage)
    → Memᴰ r talking.ai.thread_messages
    → Memᴰ s talking.ai.thread_messages
    → (of_chat 40 r ≡ true) × (of_chat 40 s ≡ true)
    → r.created_at ≡ s.created_at
    → r.id ≡ s.id
one_time r s m n both e = elim (either r m) [
  | inl a ↦ elim (either s n) [
    | inl b ↦ ap (λ (x : ThreadMessage). x.id) (a ∙ sym b)
    | inr b ↦ absurd (apart (sym (ap time a) ∙ e ∙ ap time b))
  ]
  | inr a ↦ elim (either s n) [
    | inl b ↦ absurd (apart (sym (sym (ap time a) ∙ e ∙ ap time b)))
    | inr b ↦ ap (λ (x : ThreadMessage). x.id) (a ∙ sym b)
  ]
]
  where
    time : ThreadMessage → ℕ
    time x = x.created_at

    apart : question.created_at ≡ answer.created_at → ⊥
    apart e = omega (arith, e)

thread_messages-edit_thread_message_example :
    let out = edit_thread_message services 1 40 41 "how?" talking in
    (out.0 ≡ ok tt)
    × (out.1.ai.thread_messages
        ≡ filter
            (λ r. not (of_chat 40 r && ltb 1 r.created_at))
            (replace
              (message_has_id 41)
              (λ r. record r { content = "how?" })
              talking.ai.thread_messages))
thread_messages-edit_thread_message_example =
    thread_messages-edit_thread_message services 1 40 41 talking chat question refl refl one_id
      one_time "how?"

thread_messages-retry_from_message_example :
    let out = retry_from_message services 1 40 41 talking in
    (succeeds out.0 ≡ true)
    × (out.1.ai.thread_messages
        ≡ filter
            (λ r. not (of_chat 40 r && leb question.created_at r.created_at))
            talking.ai.thread_messages)
thread_messages-retry_from_message_example =
    thread_messages-retry_from_message services 1 40 41 talking chat question refl refl one_id
      one_time

thread_messages-duplicate_chat_thread_example :
    let out = duplicate_chat_thread services 7 1 40 talking in
    (copy : Thread) × (out.0 ≡ ok copy)
    × (copy.user_id ≡ some 1)
    × (out.1.ai.threads ≡ talking.ai.threads ++ copy ∷ [])
    × (map said (filter (of_chat copy.id) out.1.ai.thread_messages)
        ≡ map said (history services 40 talking))
    × (filter (λ m. not (of_chat copy.id m)) out.1.ai.thread_messages ≡ talking.ai.thread_messages)
thread_messages-duplicate_chat_thread_example =
    thread_messages-duplicate_chat_thread services 7 1 40 talking chat refl
      (λ m k. elim (either m k) [ inl e ↦ rw e (omega arith) | inr e ↦ rw e (omega arith) ])

branch_thread_from_message_fails_example :
    let out = branch_thread_from_message services 7 1 40 41 talking in
    (branch : Thread) × (out.0 ≡ err (unknown_argument "userId"))
    × (out.1.ai.threads ≡ talking.ai.threads ++ branch ∷ [])
    × (out.1.ai.thread_messages ≡ talking.ai.thread_messages)
branch_thread_from_message_fails_example =
    branch_thread_from_message_fails services 7 1 40 talking chat refl 41 question refl

abbrev allowance : SearchUsage
allowance = record {
  id = 60;
  user_id = 1;
  used_requests = 98;
  total_requests = 100;
  reset_date = 500;
}

abbrev limited : World
limited = record world { ai = record no_ai { search_usages = allowance ∷ [] } }

grants-min_example :
    grants services (λ t. t) 1 (10 ∷ 20 ∷ 30 ∷ []) limited
    ≡ min (length {A = ℕ} (10 ∷ 20 ∷ 30 ∷ [])) (100 - 98)
grants-min_example =
    grants-min services (λ t. t) 1 (10 ∷ 20 ∷ 30 ∷ []) allowance limited
      (record { known = Memᴰ.head refl; mine = refl; only = λ r m e. Memᴰ.eq_of_singleton m })
      (omega arith, (omega arith, (omega arith, tt)))
