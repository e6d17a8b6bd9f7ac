-- ===== src/Model/Agents.antt =====
-- The rows of agents: the models `Agent`, `AgentStep`, `AgentVariable` and `AgentCredential` of
-- prisma/schema.prisma, with the configurations of the steps (src/intelligence/agent/models).
use auth_backend.Base.{ℕ, String, Option, List}
use auth_backend.Model.Json.{Json}

pub data FailureMode : Type 0 where
  stop_on_failure : FailureMode
  retry_on_failure : FailureMode
  continue_on_failure : FailureMode

-- The columns `type` and `config`. The fields that the code does not read are left out.
pub data StepConfig : Type 0 where
  prompt : String → String → String → Option Json → StepConfig
  api_call :
      String → String → List (String × String) → Option Json → String → Option (ℕ × ℕ) → StepConfig
  validation : String → Json → FailureMode → StepConfig
  transformation : String → Option Json → String → StepConfig
  condition : StepConfig
  loop : StepConfig
  wait : StepConfig
  set_variable : String → Option String → Option String → StepConfig
  error_handler : StepConfig

pub record AgentStep : Type 0 where
  pub id : ℕ
  pub config : StepConfig
  pub order : ℕ
  pub next_on_success : Option ℕ
  pub next_on_failure : Option ℕ

pub record AgentVariable : Type 0 where
  pub name : String
  pub default_value : Option String

pub record AgentRow : Type 0 where
  pub id : ℕ
  pub user_id : ℕ
  pub name : String
  pub description : Option String

pub record StepRow : Type 0 where
  pub agent_id : ℕ
  pub name : String
  pub description : Option String
  pub step : AgentStep

pub record VariableRow : Type 0 where
  pub id : ℕ
  pub agent_id : ℕ
  pub description : Option String
  pub variable : AgentVariable

-- The value is encrypted.
pub record AgentCredential : Type 0 where
  pub id : ℕ
  pub agent_id : ℕ
  pub name : String
  pub type : String
  pub value : String

pub record AgentTables : Type 0 where
  pub agents : List AgentRow
  pub agent_steps : List StepRow
  pub agent_variables : List VariableRow
  pub agent_credentials : List AgentCredential
