-- ===== src/Threads.antt =====
-- The chat threads of a user: getChatThreads, deleteChatThread, duplicateChatThread,
-- renameChatThread, editThreadMessage, branchThreadFromMessage, retryFromMessage and the exports
-- (src/intelligence/intelligence.service.ts). The time of an export and the number of the threads in
-- it are left out.
pub mod Splitting
pub mod Editing
pub mod Copies
use auth_backend.Base.{
  ℕ, ◌+◌, String, Bool, true, false, not, ◌&&◌, Option, none, some, List, [], ◌∷◌, ◌++◌, map, any,
  is_none, length, text_or, str_eq, ◌==◌, if◌then◌else◌,
}
use auth_backend.Base.Text.{concat}
use auth_backend.Model.{World}
use auth_backend.Model.Ai.{Thread, ThreadMessage, AiTables}
use auth_backend.Action.{
  Exception, not_found, unknown_argument, Action, pure, raise, gets, modify, or_raise, ◌>>=◌, ◌>>◌,
}
use auth_backend.Services.{Services}
use auth_backend.Store.{create, update, update_many, delete, find_first}
use auth_backend.Chat.Store.{delete_many}
use auth_backend.Chat.Direct.{page_of, refuse_page}
use auth_backend.Projects.Store.{with_ai, threads_table, thread_messages_table, transaction}
use auth_backend.Projects.Manage.{same_id}
use auth_backend.Projects.Reading.{count_messages}

-- The columns of an exported message.
pub record Said : Type 0 where
  pub content : String
  pub role : String
  pub created_at : ℕ

pub record ThreadExport : Type 0 where
  pub id : ℕ
  pub title : Option String
  pub created_at : ℕ
  pub messages : List Said

abbrev pub said : ThreadMessage → Said
said m = record { content = m.content; role = m.role; created_at = m.created_at }

abbrev pub of_chat : ℕ → ThreadMessage → Bool
of_chat chat_id m = m.chat_id == chat_id

abbrev pub message_has_id : ℕ → ThreadMessage → Bool
message_has_id i m = m.id == i

abbrev pub message_of : ℕ → ℕ → ThreadMessage → Bool
message_of thread_id message_id m = m.id == message_id && m.chat_id == thread_id

abbrev pub thread_by : ℕ → ℕ → Thread → Bool
thread_by user_id thread_id t = t.id == thread_id && same_id t.user_id user_id

abbrev with_messages : World → ℕ → Thread → Bool
with_messages w user_id t = same_id t.user_id user_id && any (of_chat t.id) w.ai.thread_messages

-- The messages before the first with an id (`findIndex` and `slice`), that message, and the rest.
abbrev pub before_first :
    ThreadMessage
    → Option (List ThreadMessage × ThreadMessage × List ThreadMessage)
    → Option (List ThreadMessage × ThreadMessage × List ThreadMessage)
before_first m none = none
before_first m (some (before, found, after)) = some (m ∷ before, found, after)

abbrev pub split_at :
    ℕ → List ThreadMessage → Option (List ThreadMessage × ThreadMessage × List ThreadMessage)
split_at i [] = none
split_at i (m ∷ ms) =
    let rest = split_at i ms in if m.id == i then some ([], m, ms) else before_first m rest

abbrev pub ids_of : List ThreadMessage → List ℕ
ids_of ms = map (λ (m : ThreadMessage). m.id) ms

abbrev pub is_one_of : List ℕ → ThreadMessage → Bool
is_one_of ids m = any (λ i. i == m.id) ids

-- `createMany`, of rows with new ids.
abbrev pub create_all : List (ℕ → ThreadMessage) → World → World
create_all [] w = w
create_all (make ∷ makes) w =
    let t = w.ai in
    create_all makes (record w {
      next_id = w.next_id + 1;
      ai = record t { thread_messages = t.thread_messages ++ make w.next_id ∷ [] };
    })

-- A row that is given to `createMany`: the columns that are given, and the row that they make.
pub record GivenRow : Type 0 where
  pub columns : List String
  pub make : ℕ → ThreadMessage

-- The columns of the model `AIThreadMessage` of prisma/schema.prisma.
abbrev thread_message_columns : List String
thread_message_columns = "id" ∷ "content" ∷ "role" ∷ "chatId" ∷ "createdAt" ∷ []

-- The first column, if any, that is given and is not one of the model.
abbrev unknown_of : List String → Option String
unknown_of [] = none
unknown_of (c ∷ cs) =
    let rest = unknown_of cs in if any (str_eq c) thread_message_columns then rest else some c

abbrev unknown_or : Option String → Option String → Option String
unknown_or none rest = rest
unknown_or (some c) rest = some c

abbrev pub unknown_in : List GivenRow → Option String
unknown_in [] = none
unknown_in (r ∷ rs) = unknown_or (unknown_of r.columns) (unknown_in rs)

-- `createMany`, which Prisma refuses where a row gives a column that the model does not have.
abbrev refuse_unknown : Option String → Action (Unit {0})
refuse_unknown none = pure tt
refuse_unknown (some c) = raise (unknown_argument c)

abbrev create_given : List GivenRow → Action (Unit {0})
create_given rows = do
  refuse_unknown (unknown_in rows)
  modify (create_all (map (λ (r : GivenRow). r.make) rows))

abbrev pub no_thread : Exception
no_thread = not_found "Chat thread not found"

abbrev pub no_access : Exception
no_access = not_found "Thread not found or you don't have access"

abbrev pub no_message : Exception
no_message = not_found "Message not found in this thread"

-- `${title}` in a text.
abbrev pub shown_title : Option String → String
shown_title none = "null"
shown_title (some s) = s

-- What a branch gives for a message. `createdAt` is not given, so it is the time of the copy.
abbrev pub given_copy : ℕ → ℕ → ThreadMessage → GivenRow
given_copy now chat_id m = record {
  columns = "chatId" ∷ "content" ∷ "role" ∷ "userId" ∷ [];
  make = λ i. record m { id = i; chat_id = chat_id; created_at = now };
}

module _ (sv : Services) where
  -- The messages of a thread, the oldest first.
  abbrev pub history : ℕ → World → List ThreadMessage
  history thread_id w =
      sv.find_ascending (of_chat thread_id) (λ m. m.created_at) w.ai.thread_messages

  abbrev pub require_thread : ℕ → ℕ → Exception → Action Thread
  require_thread user_id thread_id missing = do
    t ← find_first sv threads_table (thread_by user_id thread_id)
    or_raise t missing

  unfoldable pub get_chat_threads : ℕ → ℕ → ℕ → Action (List (Thread × ℕ))
  get_chat_threads user_id page limit = do
    refuse_page limit page
    all ← gets (λ w.
        sv.find_ordered (λ (t : Thread). with_messages w user_id t && is_none t.project_id)
          (λ t. t.created_at) w.ai.threads)
    gets (λ w. map (count_messages w) (page_of limit page all))

  unfoldable pub delete_chat_thread : ℕ → ℕ → Action (Unit {0})
  delete_chat_thread user_id thread_id = do
    require_thread user_id thread_id no_thread
    delete_many thread_messages_table (of_chat thread_id)
    delete threads_table (thread_by user_id thread_id)

  abbrev pub new_thread : ℕ → ℕ → String → ℕ → Thread
  new_thread now user_id title i = record {
    id = i;
    title = some title;
    created_at = now;
    user_id = some user_id;
    project_id = none;
  }

  abbrev pub copy_to : ℕ → ThreadMessage → ℕ → ThreadMessage
  copy_to chat_id m i = record m { id = i; chat_id = chat_id }

  unfoldable pub duplicate_chat_thread : ℕ → ℕ → ℕ → Action Thread
  duplicate_chat_thread now user_id thread_id = do
    t ← require_thread user_id thread_id no_thread
    messages ← gets (history t.id)
    copy ←
        create threads_table
          (new_thread now user_id (concat (text_or t.title "Chat Thread" ∷ " (Copy)" ∷ [])))
    modify (create_all (map (copy_to copy.id) messages))
    pure copy

  unfoldable pub rename_chat_thread : ℕ → ℕ → String → Action (Unit {0})
  rename_chat_thread user_id thread_id new_name =
      update_many threads_table (thread_by user_id thread_id)
        (λ t. record t { title = some new_name })

  -- The thread, its messages before a message of it, that message, and those after it.
  abbrev pub locate :
      ℕ → ℕ → ℕ → Action (Thread × List ThreadMessage × ThreadMessage × List ThreadMessage)
  locate user_id thread_id message_id = do
    t ← require_thread user_id thread_id no_access
    message ← find_first sv thread_messages_table (message_of thread_id message_id)
    or_raise message no_message
    messages ← gets (history thread_id)
    (before, m, after) ← or_raise (split_at message_id messages) no_message
    pure (t, before, m, after)

  unfoldable pub edit_thread_message : ℕ → ℕ → ℕ → String → Action (Unit {0})
  edit_thread_message user_id thread_id message_id content = do
    (t, before, message, after) ← locate user_id thread_id message_id
    transaction (do
      update thread_messages_table (message_has_id message_id) (λ m. record m { content = content })
      delete_many thread_messages_table (is_one_of (ids_of after)))

  unfoldable pub branch_thread_from_message : ℕ → ℕ → ℕ → ℕ → Action (ℕ × ℕ)
  branch_thread_from_message now user_id thread_id message_id = do
    (t, before, message, after) ← locate user_id thread_id message_id
    branch ←
        create threads_table
          (new_thread now user_id (concat (shown_title t.title ∷ " (branched)" ∷ [])))
    let copied = before ++ message ∷ []
    create_given (map (given_copy now branch.id) copied)
    pure (branch.id, length copied)

  -- The number of the messages that were deleted.
  unfoldable pub retry_from_message : ℕ → ℕ → ℕ → Action ℕ
  retry_from_message user_id thread_id message_id = do
    (t, before, message, after) ← locate user_id thread_id message_id
    let ids = ids_of (message ∷ after)
    delete_many thread_messages_table (is_one_of ids)
    pure (length ids)

  abbrev exported : World → Thread → ThreadExport
  exported w t = record {
    id = t.id;
    title = t.title;
    created_at = t.created_at;
    messages = map said (history t.id w);
  }

  unfoldable pub get_all_chat_threads_with_messages :
      ℕ → Action (List (Thread × List ThreadMessage))
  get_all_chat_threads_with_messages user_id = gets (λ w.
      map (λ (t : Thread). (t, history t.id w))
        (sv.find_ordered (with_messages w user_id) (λ t. t.created_at) w.ai.threads))

  unfoldable pub get_chat_thread_for_export : ℕ → ℕ → Action ThreadExport
  get_chat_thread_for_export user_id thread_id = do
    t ← require_thread user_id thread_id no_thread
    gets (λ w. exported w t)

  unfoldable pub get_all_chat_threads_for_export : ℕ → Action (List ThreadExport)
  get_all_chat_threads_for_export user_id = gets (λ w.
      map (exported w) (sv.find_ordered (with_messages w user_id) (λ t. t.created_at) w.ai.threads))
