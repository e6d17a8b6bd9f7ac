-- ===== src/Agent/Run.antt =====
-- One step of an agent: `executeStep` and the functions of the kinds of step.
use auth_backend.Base.{
  ℕ, String, Bool, false, Option, none, some, List, [], ◌∷◌, map, length, str_eq, if◌then◌else◌,
}
use auth_backend.Base.Text.{join, concat}
use auth_backend.Model.Json.{
  Json, null, bool, num, str, arr, obj, Items, nil, cons, Fields, end, field,
}
use auth_backend.Action.{Result, ok, err, plain_error}
use auth_backend.Agent.Steps.{
  FailureMode, stop_on_failure, retry_on_failure, continue_on_failure, StepConfig, prompt, api_call,
  validation, transformation, condition, loop, wait, set_variable, error_handler, AgentStep,
  StepResult, step_success, step_failure, Variables, Context, Outside,
}

-- `object[key] = value`.
abbrev pub set_entry : {K A : Type 0} → (K → K → Bool) → K → A → List (K × A) → List (K × A)
set_entry same key value [] = (key, value) ∷ []
set_entry same key value (e ∷ es) =
    if same e.0 key then (key, value) ∷ es else e ∷ set_entry same key value es

-- `object[key]`, also where the value is undefined.
abbrev pub entry_of : String → Variables → Option Json
entry_of key [] = none
entry_of key (e ∷ es) = if str_eq e.0 key then e.1 else entry_of key es

abbrev pub and_then : {A B : Type 0} → Result A → (A → Result B) → Result B
and_then (ok a) f = f a
and_then (err e) f = err e

-- What a step returns: its output, the tokens that it used and the variables after it.
pub record Done : Type 0 where
  pub output : Option Json
  pub tokens : ℕ
  pub variables : Variables

abbrev set_variable_to : String → Option Json → Variables → Variables
set_variable_to name value variables = set_entry str_eq name value variables

module _ (out : Outside) where
  -- `evaluateExpression`
  abbrev pub evaluate : Context → String → Json
  evaluate c expression =
      if str_eq expression ""
      then null
      else str (out.render c.variables c.input c.step_results expression)

  -- `processObjectTemplates`: each text inside the value is evaluated.
  unfoldable mutual
    pub fill : Context → Json → Json
    fill c null = null
    fill c (bool b) = bool b
    fill c (num n) = num n
    fill c (str s) = str s
    fill c (arr items) = arr (fill_items c items)
    fill c (obj fields) = obj (fill_fields c fields)

    pub fill_items : Context → Items → Items
    fill_items c nil = nil
    fill_items c (cons (str s) items) = cons (evaluate c s) (fill_items c items)
    fill_items c (cons null items) = cons null (fill_items c items)
    fill_items c (cons (bool b) items) = cons (bool b) (fill_items c items)
    fill_items c (cons (num n) items) = cons (num n) (fill_items c items)
    fill_items c (cons (arr is) items) = cons (fill c (arr is)) (fill_items c items)
    fill_items c (cons (obj fs) items) = cons (fill c (obj fs)) (fill_items c items)

    pub fill_fields : Context → Fields → Fields
    fill_fields c end = end
    fill_fields c (field key (str s) fields) = field key (evaluate c s) (fill_fields c fields)
    fill_fields c (field key null fields) = field key null (fill_fields c fields)
    fill_fields c (field key (bool b) fields) = field key (bool b) (fill_fields c fields)
    fill_fields c (field key (num n) fields) = field key (num n) (fill_fields c fields)
    fill_fields c (field key (arr is) fields) = field key (fill c (arr is)) (fill_fields c fields)
    fill_fields c (field key (obj fs) fields) = field key (fill c (obj fs)) (fill_fields c fields)

  -- Texts are evaluated, the inside of arrays and objects is filled, and other values stand for
  -- themselves.
  abbrev pub evaluate_value : Context → Json → Json
  evaluate_value c (str s) = evaluate c s
  evaluate_value c null = null
  evaluate_value c (bool b) = bool b
  evaluate_value c (num n) = num n
  evaluate_value c (arr items) = fill c (arr items)
  evaluate_value c (obj fields) = fill c (obj fields)

  abbrev moment : Context → ℕ
  moment c = length c.execution_path

  abbrev check_output : Option Json → Json → Result (Unit {0})
  check_output none content = ok tt
  check_output (some schema) content = of (out.validate_data (some content) schema)
    where
      of : Option (List String) → Result (Unit {0})
      of none = ok tt
      of (some errors) =
          err (plain_error (concat ("Output validation failed: " ∷ join ", " errors ∷ [])))

  -- An empty content is falsy, so the whole result of the step is its output then.
  abbrev shown_content : String → ℕ → Json
  shown_content content tokens =
      if str_eq content ""
      then obj (field "content" (str content) (field "tokenUsage" (num tokens) end))
      else str content

  unfoldable pub execute_prompt_step :
      String → String → String → Option Json → Context → Result Done
  execute_prompt_step text model output_variable schema c =
      and_then (out.generate_content (moment c) model (evaluate c text)) (λ response.
        and_then (check_output schema (str response.0)) (λ t. ok (record {
          output = some (shown_content response.0 response.1);
          tokens = response.1;
          variables = set_variable_to output_variable (some (str response.0)) c.variables;
        })))

  abbrev body_of : Context → Option Json → Option Json
  body_of c none = none
  body_of c (some (str s)) = if str_eq s "" then some (str s) else some (evaluate c s)
  body_of c (some null) = some null
  body_of c (some (bool b)) = some (bool b)
  body_of c (some (num n)) = some (num n)
  body_of c (some (arr items)) = some (fill c (arr items))
  body_of c (some (obj fields)) = some (fill c (obj fields))

  unfoldable pub execute_api_call_step :
      String
      → String
      → List (String × String)
      → Option Json
      → String
      → Option (ℕ × ℕ)
      → Context
      → Result Done
  unfolding fill
  execute_api_call_step endpoint method headers body output_variable retry c =
      and_then
        (out.make_api_call (moment c) (evaluate c endpoint) (evaluate c method)
          (map (λ h. (h.0, evaluate c h.1)) headers) (body_of c body) retry)
        (λ answer. ok (record {
          output = some answer;
          tokens = 0;
          variables = set_variable_to output_variable (some answer) c.variables;
        }))

  abbrev validated : FailureMode → Option Json → Context → Option (List String) → Result Done
  validated mode input c none = ok (record { output = input; tokens = 0; variables = c.variables })
  validated stop_on_failure input c (some errors) =
      err (plain_error (concat ("Validation failed: " ∷ join ", " errors ∷ [])))
  validated retry_on_failure input c (some errors) =
      ok (record { output = input; tokens = 0; variables = c.variables })
  validated continue_on_failure input c (some errors) =
      ok (record { output = input; tokens = 0; variables = c.variables })

  unfoldable pub execute_validation_step : String → Json → FailureMode → Context → Result Done
  execute_validation_step input_variable schema mode c =
      let input = entry_of input_variable c.variables in
      validated mode input c (out.validate_data input schema)

  abbrev transformed : Context → Option Json → Option Json → Option Json
  transformed c input (some (str s)) = if str_eq s "" then input else some (evaluate c s)
  transformed c input (some (arr items)) = some (fill c (arr items))
  transformed c input (some (obj fields)) = some (fill c (obj fields))
  transformed c input (some null) = input
  transformed c input (some (bool b)) = input
  transformed c input (some (num n)) = input
  transformed c input none = input

  unfoldable pub execute_transformation_step : String → Option Json → String → Context → Result Done
  unfolding fill
  execute_transformation_step input_variable change output_variable c =
      let output = transformed c (entry_of input_variable c.variables) change in
      ok (record {
        output = output;
        tokens = 0;
        variables = set_variable_to output_variable output c.variables;
      })

  abbrev expression_value : Context → Option String → Json
  expression_value c none = null
  expression_value c (some expression) = evaluate c expression

  abbrev given_value : Context → Option String → Option String → Json
  given_value c none expression = expression_value c expression
  given_value c (some value) expression =
      if str_eq value "" then expression_value c expression else str value

  unfoldable pub execute_set_variable_step :
      String → Option String → Option String → Context → Result Done
  execute_set_variable_step variable value expression c =
      let given = given_value c value expression in
      ok (record {
        output = some given;
        tokens = 0;
        variables = set_variable_to variable (some given) c.variables;
      })

  abbrev unchanged : Option Json → Context → Result Done
  unchanged output c = ok (record { output = output; tokens = 0; variables = c.variables })

  unfoldable pub run_config : StepConfig → Context → Result Done
  unfolding execute_prompt_step execute_api_call_step execute_validation_step
      execute_transformation_step execute_set_variable_step
  run_config (prompt text model variable schema) c =
      execute_prompt_step text model variable schema c
  run_config (api_call endpoint method headers body variable retry) c =
      execute_api_call_step endpoint method headers body variable retry c
  run_config (validation variable schema mode) c = execute_validation_step variable schema mode c
  run_config (transformation input change output) c =
      execute_transformation_step input change output c
  run_config condition c = unchanged (some (bool false)) c
  run_config loop c = unchanged (some (arr nil)) c
  run_config wait c = unchanged none c
  run_config (set_variable variable value expression) c =
      execute_set_variable_step variable value expression c
  run_config error_handler c = unchanged (some null) c

  -- The result of a step, and the variables after it; an exception leaves them as they are.
  abbrev result_of : Context → Result Done → StepResult × Variables
  result_of c (ok done) = (step_success done.output done.tokens, done.variables)
  result_of c (err e) = (step_failure e, c.variables)

  unfoldable pub execute_step : AgentStep → Context → StepResult × Variables
  unfolding run_config
  execute_step s c = result_of c (run_config s.config c)
