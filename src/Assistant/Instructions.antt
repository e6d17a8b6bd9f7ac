-- ===== src/Assistant/Instructions.antt =====
-- The standing instructions and the memories of a user: createChatUserInstruction,
-- getChatUserInstructions, updateChatUserInstruction, deleteChatUserInstruction, getChatMemory and
-- deleteChatMemory (src/intelligence/intelligence.service.ts).
pub mod Limits
use Prim.Native.String.{[], ◌∷◌}
use Prim.Native.Nat.{max}
use auth_backend.Base.{
  ℕ, ◌+◌, String, Bool, true, false, ◌&&◌, Option, none, some, List, length, filter, is_none, leb,
  ltb, ◌==◌, if◌then◌else◌,
}
use auth_backend.Base.Text.{is_space}
use auth_backend.Model.{World}
use auth_backend.Model.Ai.{UserMemory, UserInstruction, AiTables}
use auth_backend.Action.{Exception, bad_request, Action, gets, raise_if, ◌>>=◌, ◌>>◌}
use auth_backend.Services.{Services}
use auth_backend.Store.{Table, create, update, delete, find_first, find_many}
use auth_backend.Chat.Store.{delete_many}
use auth_backend.Projects.Store.{with_ai}

abbrev pub user_instructions_table : Table UserInstruction
user_instructions_table = record {
  rows = λ w. w.ai.user_instructions;
  put = λ rs w. let t = w.ai in with_ai w (record t { user_instructions = rs });
}

abbrev pub user_memories_table : Table UserMemory
user_memories_table = record {
  rows = λ w. w.ai.user_memories;
  put = λ rs w. let t = w.ai in with_ai w (record t { user_memories = rs });
}

-- The words of a text, where `fresh` is whether white space, or nothing, comes before it.
abbrev words_from : Bool → String → ℕ
words_from fresh [] = 0
words_from fresh (c ∷ s) =
    let after_space = words_from true s in
    let after_letter = words_from false s in
    if is_space c then after_space else if fresh then 1 + after_letter else after_letter

-- `job.trim().split(/\s+/).length`: an empty text splits into one piece.
abbrev pub word_count : String → ℕ
word_count s = max 1 (words_from true s)

abbrev pub instruction_by : ℕ → UserInstruction → Bool
instruction_by user_id r = r.user_id == user_id

abbrev pub instruction_is : ℕ → UserInstruction → Bool
instruction_is i r = r.id == i

abbrev pub instruction_of : ℕ → ℕ → UserInstruction → Bool
instruction_of user_id i r = r.id == i && r.user_id == user_id

abbrev instruction_missing : Exception
instruction_missing = bad_request "Instruction not found."

abbrev too_long : Exception
too_long = bad_request "Job field cannot exceed 30 words."

module _ (sv : Services) where
  unfoldable pub create_chat_user_instruction : ℕ → String → Action UserInstruction
  create_chat_user_instruction user_id job = do
    count ← gets (λ w. length (filter (instruction_by user_id) w.ai.user_instructions))
    raise_if (leb 20 count) (bad_request "Maximum of 20 instructions allowed.")
    raise_if (ltb 30 (word_count job)) too_long
    create user_instructions_table (λ i. record { id = i; user_id = user_id; job = job })

  unfoldable pub get_chat_user_instructions : ℕ → Action (List UserInstruction)
  get_chat_user_instructions user_id = find_many sv user_instructions_table (instruction_by user_id)

  unfoldable pub update_chat_user_instruction : ℕ → ℕ → String → Action (Unit {0})
  update_chat_user_instruction user_id instruction_id job = do
    found ← find_first sv user_instructions_table (instruction_of user_id instruction_id)
    raise_if (is_none found) instruction_missing
    raise_if (ltb 30 (word_count job)) too_long
    update user_instructions_table (instruction_is instruction_id) (λ r. record r { job = job })

  unfoldable pub delete_chat_user_instruction : ℕ → ℕ → Action (Unit {0})
  delete_chat_user_instruction user_id instruction_id = do
    found ← find_first sv user_instructions_table (instruction_of user_id instruction_id)
    raise_if (is_none found) instruction_missing
    delete user_instructions_table (instruction_is instruction_id)

  unfoldable pub get_chat_memory : ℕ → Action (List UserMemory)
  get_chat_memory user_id = find_many sv user_memories_table (λ m. m.user_id == user_id)

  unfoldable pub delete_chat_memory : ℕ → Action (Unit {0})
  delete_chat_memory user_id = delete_many user_memories_table (λ m. m.user_id == user_id)
