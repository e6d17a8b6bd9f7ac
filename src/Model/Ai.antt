-- ===== src/Model/Ai.antt =====
-- The rows of the assistant's part: the models `AIThread`, `AIThreadMessage`, `AIProject`,
-- `AIProjectCollaborator`, `AIProjectFile`, `AIProjectFileVersion`, `UserSearchUsage`,
-- `AIModelPricing` (without the price), `UserMemory` and `UserInstruction` of prisma/schema.prisma.
use auth_backend.Base.{ℕ, String, Option, Bool, List}

pub record Thread : Type 0 where
  pub id : ℕ
  pub title : Option String
  pub created_at : ℕ
  pub user_id : Option ℕ
  pub project_id : Option ℕ

-- `role` is "user" or "assistant".
pub record ThreadMessage : Type 0 where
  pub id : ℕ
  pub content : String
  pub role : String
  pub chat_id : ℕ
  pub created_at : ℕ

pub record Project : Type 0 where
  pub id : ℕ
  pub name : String
  pub description : Option String
  pub owner_id : ℕ
  pub created_at : ℕ
  pub updated_at : ℕ

pub record Collaborator : Type 0 where
  pub project_id : ℕ
  pub user_id : ℕ
  pub role : String

pub record ProjectFile : Type 0 where
  pub id : ℕ
  pub project_id : ℕ
  pub name : String
  pub path : String
  pub current_version_id : Option ℕ
  pub created_at : ℕ
  pub updated_at : ℕ
  pub is_deleted : Bool

pub record FileVersion : Type 0 where
  pub id : ℕ
  pub file_id : ℕ
  pub version : ℕ
  pub content : String
  pub commit_msg : Option String
  pub author_id : Option ℕ
  pub created_at : ℕ
  pub is_deleted : Bool

pub record SearchUsage : Type 0 where
  pub id : ℕ
  pub user_id : ℕ
  pub used_requests : ℕ
  pub total_requests : ℕ
  pub reset_date : ℕ

pub record ModelPricing : Type 0 where
  pub id : ℕ
  pub name : String
  pub quantity : ℕ
  pub type : String
  pub model : String
  pub description : Option String
  pub active : Bool

pub record UserMemory : Type 0 where
  pub id : ℕ
  pub user_id : ℕ
  pub key : String
  pub value : String
  pub created_at : ℕ

pub record UserInstruction : Type 0 where
  pub id : ℕ
  pub user_id : ℕ
  pub job : String

pub record AiTables : Type 0 where
  pub threads : List Thread
  pub thread_messages : List ThreadMessage
  pub projects : List Project
  pub collaborators : List Collaborator
  pub project_files : List ProjectFile
  pub file_versions : List FileVersion
  pub search_usages : List SearchUsage
  pub model_pricings : List ModelPricing
  pub user_memories : List UserMemory
  pub user_instructions : List UserInstruction
