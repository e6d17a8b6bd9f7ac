-- ===== src/Agent/Execution.antt =====
-- The run of an agent: `executeAgent`, `getNextStep`, `initializeVariables` and
-- `calculateTotalTokenUsage`. The loop runs on fuel; without fuel there is no result.
pub mod Ends
pub mod Cycles
use auth_backend.Base.{
  ℕ, zero, suc, ◌+◌, String, Bool, true, false, Option, none, some, List, [], ◌∷◌, ◌++◌, map,
  str_eq, truthy, ◌==◌, if◌then◌else◌,
}
use auth_backend.Base.Text.{concat}
use auth_backend.Model.Json.{Json, null, str}
use auth_backend.Agent.Steps.{
  AgentStep, AgentVariable, StepResult, step_success, step_failure, Variables, StepResults, Context,
  Status, running, completed, failed, AgentExecution, Agent, Outside,
}
use auth_backend.Agent.Run.{set_entry, evaluate_value, execute_step}

-- `steps.find((step) => step.id === id)`
abbrev pub find_step : ℕ → List AgentStep → Option AgentStep
find_step i [] = none
find_step i (s ∷ ss) = if s.id == i then some s else find_step i ss

abbrev pub first_step : List AgentStep → Option AgentStep
first_step [] = none
first_step (s ∷ ss) = some s

abbrev pub rest_after : ℕ → List AgentStep → Option (List AgentStep)
rest_after i [] = none
rest_after i (s ∷ ss) = if s.id == i then some ss else rest_after i ss

abbrev pub first_or : List AgentStep → Option (List AgentStep) → Option AgentStep
first_or steps none = first_step steps
first_or steps (some rest) = first_step rest

-- `steps[steps.findIndex((step) => step.id === id) + 1]`: the first step where none has the id.
abbrev pub step_after : ℕ → List AgentStep → Option AgentStep
step_after i steps = first_or steps (rest_after i steps)

abbrev pub pointer : AgentStep → Bool → Option ℕ
pointer s success = if success then s.next_on_success else s.next_on_failure

abbrev pub follow : List AgentStep → AgentStep → Option ℕ → Option AgentStep
follow steps s none = step_after s.id steps
follow steps s (some i) = find_step i steps

unfoldable pub get_next_step : List AgentStep → AgentStep → Bool → Option AgentStep
get_next_step steps s success = follow steps s (pointer s success)

abbrev pub is_success : StepResult → Bool
is_success (step_success output tokens) = true
is_success (step_failure e) = false

-- A default value that is missing or empty is null.
abbrev default_of : Option String → Json
default_of none = null
default_of (some value) = if str_eq value "" then null else str value

unfoldable pub initialize_variables : List AgentVariable → Variables
initialize_variables variables = go [] variables
  where
    go : Variables → List AgentVariable → Variables
    go acc [] = acc
    go acc (v ∷ vs) = go (set_entry str_eq v.name (some (default_of v.default_value)) acc) vs

abbrev tokens_of : StepResult → ℕ
tokens_of (step_success output tokens) = tokens
tokens_of (step_failure e) = 0

abbrev pub calculate_total_token_usage : StepResults → ℕ
calculate_total_token_usage [] = 0
calculate_total_token_usage (r ∷ rs) = tokens_of r.1 + calculate_total_token_usage rs

-- A run: its context, and the stored row of the execution.
pub record AgentRun : Type 0 where
  pub context : Context
  pub stored : AgentExecution

module _ (out : Outside) where
  -- The body of the loop, and whether the step succeeded.
  unfoldable pub advance : AgentStep → AgentRun → AgentRun × Bool
  advance s run =
      let (result, variables) = execute_step out s run.context in
      let c = run.context in
      let results = set_entry (λ i j. i == j) s.id result c.step_results in
      let path = c.execution_path ++ s.id ∷ [] in
      let row = run.stored in
      (
        record {
          context = record c {
            variables = variables;
            step_results = results;
            execution_path = path;
          };
          stored = record row { execution_path = path; step_results = results };
        },
        is_success result,
      )

  unfoldable pub run_steps : ℕ → List AgentStep → Option AgentStep → AgentRun → Option AgentRun
  run_steps fuel steps none run = some run
  run_steps zero steps (some s) run = none
  run_steps (suc fuel) steps (some s) run =
      let (after, success) = advance s run in
      run_steps fuel steps (get_next_step steps s success) after

  abbrev evaluate_entry : Context → String × Option Json → String × Option Json
  evaluate_entry c (name, none) = (name, none)
  evaluate_entry c (name, some value) = (name, some (evaluate_value out c value))

  abbrev pub complete : AgentRun → AgentExecution
  complete run =
      let row = run.stored in
      record row {
        status = completed;
        output = some (map (evaluate_entry run.context) run.context.variables);
        token_usage = some (calculate_total_token_usage run.context.step_results);
      }

  abbrev new_execution : AgentExecution
  new_execution = record {
    status = running;
    execution_path = [];
    step_results = [];
    output = none;
    error_message = none;
    token_usage = none;
  }

  abbrev pub begin : Json → Agent → AgentRun
  begin input agent = record {
    context = record {
      variables = initialize_variables agent.variables;
      input = input;
      step_results = [];
      execution_path = [];
    };
    stored = new_execution;
  }

  abbrev not_found : String → AgentExecution
  not_found agent_id =
      let row = new_execution in
      record row {
        status = failed;
        output = some [];
        error_message = some (concat ("Agent " ∷ agent_id ∷ " not found" ∷ []));
        token_usage = some 0;
      }

  -- The row of the execution at the end. The agent was looked up.
  unfoldable pub execute_agent : ℕ → String → Option Agent → Json → Option AgentExecution
  unfolding run_steps
  execute_agent fuel agent_id none input = some (not_found agent_id)
  execute_agent fuel agent_id (some agent) input =
      elim (run_steps fuel agent.steps (first_step agent.steps) (begin input agent)) [
        | none ↦ none
        | some run ↦ some (complete run)
      ]
