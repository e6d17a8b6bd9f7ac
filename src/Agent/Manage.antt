-- ===== src/Agent/Manage.antt =====
-- The agents of a user: the operations of `AgentService` (src/intelligence/agent/agent.service.ts)
-- that write, and `storeCredential` and `deleteCredential` of `CredentialManagerService`
-- (src/intelligence/agent/services/credential-manager.service.ts). A column that an update does
-- not give is none and stays as it is; the type and the configuration of a step are given together.
pub mod Owned
use auth_backend.Base.{
  ℕ, String, Bool, ◌&&◌, Option, none, some, any, is_none, str_eq, ◌==◌, if◌then◌else◌, List,
  given_or, or_kept,
}
use auth_backend.Model.{World}
use auth_backend.Model.Agents.{
  StepConfig, AgentStep, AgentVariable, AgentRow, StepRow, VariableRow, AgentCredential,
  AgentTables,
}
use auth_backend.Action.{
  Exception, not_found, plain_error, type_error, Action, pure, gets, raise, raise_if, ◌>>=◌, ◌>>◌,
}
use auth_backend.Services.{Services}
use auth_backend.Store.{Table, create, update, delete, find_first}
use auth_backend.Chat.Store.{delete_many}

abbrev with_tables : World → AgentTables → World
with_tables w t = record w { agents = t }

abbrev agents_table : Table AgentRow
agents_table = record {
  rows = λ w. w.agents.agents;
  put = λ rs w. let t = w.agents in with_tables w (record t { agents = rs });
}

abbrev agent_steps_table : Table StepRow
agent_steps_table = record {
  rows = λ w. w.agents.agent_steps;
  put = λ rs w. let t = w.agents in with_tables w (record t { agent_steps = rs });
}

abbrev agent_variables_table : Table VariableRow
agent_variables_table = record {
  rows = λ w. w.agents.agent_variables;
  put = λ rs w. let t = w.agents in with_tables w (record t { agent_variables = rs });
}

abbrev agent_credentials_table : Table AgentCredential
agent_credentials_table = record {
  rows = λ w. w.agents.agent_credentials;
  put = λ rs w. let t = w.agents in with_tables w (record t { agent_credentials = rs });
}

-- The columns of a step, each of which an update may leave out.
pub record StepChanges : Type 0 where
  pub name : Option String
  pub description : Option String
  pub config : Option StepConfig
  pub order : Option ℕ
  pub next_on_success : Option ℕ
  pub next_on_failure : Option ℕ

abbrev changed_step : StepChanges → StepRow → StepRow
changed_step c r =
    let s = r.step in
    record r {
      name = given_or c.name r.name;
      description = or_kept c.description r.description;
      step = record s {
        config = given_or c.config s.config;
        order = given_or c.order s.order;
        next_on_success = or_kept c.next_on_success s.next_on_success;
        next_on_failure = or_kept c.next_on_failure s.next_on_failure;
      };
    }

abbrev new_step : ℕ → String → Option String → AgentStep → ℕ → StepRow
new_step agent_id name description step i = record {
  agent_id = agent_id;
  name = name;
  description = description;
  step = record step { id = i };
}

abbrev pub agent_is : ℕ → AgentRow → Bool
agent_is i a = a.id == i

abbrev pub is_owned : ℕ → ℕ → AgentRow → Bool
is_owned agent_id user_id a = a.id == agent_id && a.user_id == user_id

abbrev step_of : ℕ → ℕ → StepRow → Bool
step_of agent_id step_id s = s.step.id == step_id && s.agent_id == agent_id

abbrev variable_of : ℕ → ℕ → VariableRow → Bool
variable_of agent_id variable_id v = v.id == variable_id && v.agent_id == agent_id

abbrev pub credential_of : ℕ → ℕ → AgentCredential → Bool
credential_of agent_id credential_id c = c.id == credential_id && c.agent_id == agent_id

abbrev same_name : ℕ → String → AgentCredential → Bool
same_name agent_id name c = c.agent_id == agent_id && str_eq c.name name

-- The messages name the ids.
abbrev pub agent_not_found : Exception
agent_not_found = not_found "Agent not found"

-- `upsert` by agent and name.
abbrev upsert_credential : ℕ → String → String → String → Action (Unit {0})
upsert_credential agent_id name stored type w =
    if any (same_name agent_id name) w.agents.agent_credentials
    then update agent_credentials_table (same_name agent_id name)
        (λ c. record c { value = stored; type = type }) w
    else (create agent_credentials_table
            (λ i. record { id = i; agent_id = agent_id; name = name; type = type; value = stored })
          >> pure tt)
        w

-- The cipher of a missing value throws, and so does a query with a missing column.
abbrev pub store_credential :
    (String → String) → ℕ → Option String → Option String → Option String → Action (Unit {0})
store_credential encrypt agent_id name none type = raise type_error
store_credential encrypt agent_id none (some value) type = raise (plain_error "Argument is missing")
store_credential encrypt agent_id (some name) (some value) none =
    raise (plain_error "Argument is missing")
store_credential encrypt agent_id (some name) (some value) (some type) =
    upsert_credential agent_id name (encrypt value) type

-- A request to change an agent.
pub data AgentRequest : Type 0 where
  updates : Option String → Option String → AgentRequest
  deletes : AgentRequest
  adds_step : String → Option String → AgentStep → AgentRequest
  updates_step : ℕ → StepChanges → AgentRequest
  deletes_step : ℕ → AgentRequest
  adds_variable : AgentVariable → Option String → AgentRequest
  updates_variable : ℕ → Option String → Option String → Option String → AgentRequest
  deletes_variable : ℕ → AgentRequest
  adds_credential : String → String → String → AgentRequest
  updates_credential : ℕ → Option String → Option String → Option String → AgentRequest
  deletes_credential : ℕ → AgentRequest

module _ (sv : Services) (encrypt : String → String) where
  abbrev verify : {R : Type 0} → Table R → (R → Bool) → Exception → Action (Unit {0})
  verify t p missing = do row ← find_first sv t p; raise_if (is_none row) missing

  -- Each operation on an agent but its creation begins with this. The rows that they return are
  -- left out.
  abbrev verify_agent_ownership : ℕ → ℕ → Action (Unit {0})
  verify_agent_ownership agent_id user_id =
      verify agents_table (is_owned agent_id user_id) agent_not_found

  unfoldable pub create_agent : String → Option String → ℕ → Action AgentRow
  create_agent name description user_id =
      create agents_table
        (λ i. record { id = i; user_id = user_id; name = name; description = description })

  abbrev update_agent : ℕ → ℕ → Option String → Option String → Action (Unit {0})
  update_agent user_id agent_id name description = do
    verify_agent_ownership agent_id user_id
    update agents_table (agent_is agent_id) (λ a. record a {
      name = given_or name a.name;
      description = or_kept description a.description;
    })

  abbrev delete_agent : ℕ → ℕ → Action (Unit {0})
  delete_agent user_id agent_id = do
    verify_agent_ownership agent_id user_id
    delete_many agent_credentials_table (λ c. c.agent_id == agent_id)
    delete_many agent_variables_table (λ v. v.agent_id == agent_id)
    delete_many agent_steps_table (λ s. s.agent_id == agent_id)
    delete agents_table (agent_is agent_id)

  abbrev add_step : ℕ → ℕ → String → Option String → AgentStep → Action (Unit {0})
  add_step user_id agent_id name description step = do
    verify_agent_ownership agent_id user_id
    create agent_steps_table (new_step agent_id name description step)
    pure tt

  abbrev update_step : ℕ → ℕ → ℕ → StepChanges → Action (Unit {0})
  update_step user_id agent_id step_id changes = do
    verify_agent_ownership agent_id user_id
    verify agent_steps_table (step_of agent_id step_id) (not_found "Step not found")
    update agent_steps_table (λ s. s.step.id == step_id) (changed_step changes)

  abbrev delete_step : ℕ → ℕ → ℕ → Action (Unit {0})
  delete_step user_id agent_id step_id = do
    verify_agent_ownership agent_id user_id
    verify agent_steps_table (step_of agent_id step_id) (not_found "Step not found")
    delete agent_steps_table (λ s. s.step.id == step_id)

  abbrev add_variable : ℕ → ℕ → AgentVariable → Option String → Action (Unit {0})
  add_variable user_id agent_id variable description = do
    verify_agent_ownership agent_id user_id
    create agent_variables_table (λ i. record {
      id = i;
      agent_id = agent_id;
      description = description;
      variable = variable;
    })
    pure tt

  abbrev changed_variable :
      Option String → Option String → Option String → VariableRow → VariableRow
  changed_variable name default_value description r =
      let v = r.variable in
      record r {
        description = or_kept description r.description;
        variable = record v {
          name = given_or name v.name;
          default_value = or_kept default_value v.default_value;
        };
      }

  abbrev update_variable :
      ℕ → ℕ → ℕ → Option String → Option String → Option String → Action (Unit {0})
  update_variable user_id agent_id variable_id name default_value description = do
    verify_agent_ownership agent_id user_id
    verify agent_variables_table (variable_of agent_id variable_id) (not_found "Variable not found")
    update agent_variables_table (λ v. v.id == variable_id)
        (changed_variable name default_value description)

  abbrev delete_variable : ℕ → ℕ → ℕ → Action (Unit {0})
  delete_variable user_id agent_id variable_id = do
    verify_agent_ownership agent_id user_id
    verify agent_variables_table (variable_of agent_id variable_id) (not_found "Variable not found")
    delete agent_variables_table (λ v. v.id == variable_id)

  abbrev add_credential : ℕ → ℕ → String → String → String → Action (Unit {0})
  add_credential user_id agent_id name value type = do
    verify_agent_ownership agent_id user_id
    store_credential encrypt agent_id (some name) (some value) (some type)

  -- The credential is deleted before the new one is stored.
  abbrev update_credential :
      ℕ → ℕ → ℕ → Option String → Option String → Option String → Action (Unit {0})
  update_credential user_id agent_id credential_id name value type = do
    verify_agent_ownership agent_id user_id
    verify agent_credentials_table (credential_of agent_id credential_id)
        (not_found "Credential not found")
    delete agent_credentials_table (λ c. c.id == credential_id)
    store_credential encrypt agent_id name value type

  abbrev delete_credential : ℕ → ℕ → ℕ → Action (Unit {0})
  delete_credential user_id agent_id credential_id = do
    verify_agent_ownership agent_id user_id
    verify agent_credentials_table (credential_of agent_id credential_id)
        (not_found "Credential not found")
    delete agent_credentials_table (λ c. c.id == credential_id)

  unfoldable pub serve : ℕ → ℕ → AgentRequest → Action (Unit {0})
  serve u i (updates name description) = update_agent u i name description
  serve u i deletes = delete_agent u i
  serve u i (adds_step name description step) = add_step u i name description step
  serve u i (updates_step step_id changes) = update_step u i step_id changes
  serve u i (deletes_step step_id) = delete_step u i step_id
  serve u i (adds_variable variable description) = add_variable u i variable description
  serve u i (updates_variable variable_id name default_value description) =
      update_variable u i variable_id name default_value description
  serve u i (deletes_variable variable_id) = delete_variable u i variable_id
  serve u i (adds_credential name value type) = add_credential u i name value type
  serve u i (updates_credential credential_id name value type) =
      update_credential u i credential_id name value type
  serve u i (deletes_credential credential_id) = delete_credential u i credential_id
