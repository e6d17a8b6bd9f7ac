-- ===== src/Agent/Steps.antt =====
-- The data of a run: the model `AgentExecution` of prisma/schema.prisma, the context of a run
-- (src/intelligence/agent/models), and what a run takes from outside its service.
pub use auth_backend.Model.Agents.{
  FailureMode, stop_on_failure, retry_on_failure, continue_on_failure, StepConfig, prompt, api_call,
  validation, transformation, condition, loop, wait, set_variable, error_handler, AgentStep,
  AgentVariable,
}
use auth_backend.Base.{ℕ, String, Option, List}
use auth_backend.Model.Json.{Json}
use auth_backend.Action.{Exception, Result}

-- `undefined` is none.
pub data StepResult : Type 0 where
  step_success : Option Json → ℕ → StepResult
  step_failure : Exception → StepResult

-- An object by its entries, each key once.
abbrev pub Variables : Type 0
Variables = List (String × Option Json)

abbrev pub StepResults : Type 0
StepResults = List (ℕ × StepResult)

pub record Context : Type 0 where
  pub variables : Variables
  pub input : Json
  pub step_results : StepResults
  pub execution_path : List ℕ

pub data Status : Type 0 where
  running completed failed : Status

-- The row of an execution.
pub record AgentExecution : Type 0 where
  pub status : Status
  pub execution_path : List ℕ
  pub step_results : StepResults
  pub output : Option Variables
  pub error_message : Option String
  pub token_usage : Option ℕ

pub record Agent : Type 0 where
  -- In ascending order.
  pub steps : List AgentStep
  pub variables : List AgentVariable

-- What the steps call: the text of a template that is not empty (`evaluateExpression`), the model
-- of an AI provider, an HTTP request, and the errors of a JSON schema that a value does not meet,
-- if it does not. The number is how many steps ran before.
pub record Outside : Type 1 where
  pub render : Variables → Json → StepResults → String → String
  pub generate_content : ℕ → String → Json → Result (String × ℕ)
  pub make_api_call :
      ℕ → Json → Json → List (String × Json) → Option Json → Option (ℕ × ℕ) → Result Json
  pub validate_data : Option Json → Json → Option (List String)
