-- ===== src/Agent/Manage/Owned.antt =====
-- Only the owner of an agent changes it, and what its deletion and the update of a credential do.
use auth_backend.Base.{
  ℕ, String, ◌≡◌, refl, true, false, Option, none, some, any, any-filter-not, Memᴰ, ◌==◌, arith,
  if◌then◌else◌,
}
use auth_backend.Model.{World}
use auth_backend.Model.Agents.{AgentRow, StepRow, VariableRow, AgentCredential}
use auth_backend.Action.{ok, err, type_error}
use auth_backend.Services.{Services}
use auth_backend.Store.Rows.{any_found, find_first-eq-none}
use auth_backend.Agent.Manage.{
  AgentRequest, updates, deletes, adds_step, updates_step, deletes_step, adds_variable,
  updates_variable, deletes_variable, adds_credential, updates_credential, deletes_credential,
  agent_is, is_owned, credential_of, agent_not_found, serve,
}

-- A request to change an agent that the user does not own, whatever it asks for, is refused as if
-- there were no such agent, and changes nothing.
pub serve_refused :
    (sv : Services) (encrypt : String → String) (user_id agent_id : ℕ) (request : AgentRequest)
    (w : World)
    (stranger : (a : AgentRow) → Memᴰ a w.agents.agents → is_owned agent_id user_id a ≡ false)
    → serve sv encrypt user_id agent_id request w ≡ (err agent_not_found, w)
unfolding serve
serve_refused sv encrypt user_id agent_id request w stranger = refused request
  where
    missing : sv.find_first (is_owned agent_id user_id) w.agents.agents ≡ none
    missing = find_first-eq-none sv (is_owned agent_id user_id) w.agents.agents stranger

    refused : (r : AgentRequest) → serve sv encrypt user_id agent_id r w ≡ (err agent_not_found, w)
    refused (updates name description) = rw (missing, if◌then◌else◌) refl
    refused deletes = rw (missing, if◌then◌else◌) refl
    refused (adds_step name description step) = rw (missing, if◌then◌else◌) refl
    refused (updates_step step_id changes) = rw (missing, if◌then◌else◌) refl
    refused (deletes_step step_id) = rw (missing, if◌then◌else◌) refl
    refused (adds_variable variable description) = rw (missing, if◌then◌else◌) refl
    refused (updates_variable variable_id name default_value description) =
        rw (missing, if◌then◌else◌) refl
    refused (deletes_variable variable_id) = rw (missing, if◌then◌else◌) refl
    refused (adds_credential name value type) = rw (missing, if◌then◌else◌) refl
    refused (updates_credential credential_id name value type) = rw (missing, if◌then◌else◌) refl
    refused (deletes_credential credential_id) = rw (missing, if◌then◌else◌) refl

-- When the owner deletes an agent, neither the agent nor any step, variable or credential of it is
-- left.
serve-deletes :
    (sv : Services) (encrypt : String → String) (user_id agent_id : ℕ) (w : World) (a : AgentRow)
    (owned : sv.find_first (is_owned agent_id user_id) w.agents.agents ≡ some a)
    → let out = serve sv encrypt user_id agent_id deletes w in
      (out.0 ≡ ok tt)
      × (any (agent_is agent_id) out.1.agents.agents ≡ false)
      × (any (λ (s : StepRow). s.agent_id == agent_id) out.1.agents.agent_steps ≡ false)
      × (any (λ (v : VariableRow). v.agent_id == agent_id) out.1.agents.agent_variables ≡ false)
      × (any (λ (c : AgentCredential). c.agent_id == agent_id) out.1.agents.agent_credentials
          ≡ false)
unfolding serve
serve-deletes sv encrypt user_id agent_id w a owned =
    rw (owned, if◌then◌else◌, present, if◌then◌else◌)
      (
        refl,
        any-filter-not (agent_is agent_id) w.agents.agents,
        any-filter-not (λ (s : StepRow). s.agent_id == agent_id) w.agents.agent_steps,
        any-filter-not (λ (v : VariableRow). v.agent_id == agent_id) w.agents.agent_variables,
        any-filter-not (λ (c : AgentCredential). c.agent_id == agent_id) w.agents.agent_credentials,
      )
  where
    present : any (agent_is agent_id) w.agents.agents ≡ true
    present =
        any_found sv (is_owned agent_id user_id) (agent_is agent_id) w.agents.agents a owned
          (ground (arith, (sv.find_first_some (is_owned agent_id user_id) w.agents.agents owned).1))

-- When the owner of an agent updates a credential of it without a value, the update fails, but the
-- credential is deleted.
serve-updates_credential :
    (sv : Services) (encrypt : String → String) (user_id agent_id credential_id : ℕ)
    (name type : Option String) (w : World) (a : AgentRow) (c : AgentCredential)
    (owned : sv.find_first (is_owned agent_id user_id) w.agents.agents ≡ some a)
    (known : sv.find_first (credential_of agent_id credential_id) w.agents.agent_credentials
      ≡ some c)
    → let out =
        serve sv encrypt user_id agent_id (updates_credential credential_id name none type) w in
      (out.0 ≡ err type_error)
      × (any (λ (d : AgentCredential). d.id == credential_id) out.1.agents.agent_credentials
          ≡ false)
unfolding serve
serve-updates_credential sv encrypt user_id agent_id credential_id name type w a c owned known =
    rw (owned, if◌then◌else◌, known, present, if◌then◌else◌)
      (
        refl,
        any-filter-not (λ (d : AgentCredential). d.id == credential_id) w.agents.agent_credentials,
      )
  where
    present : any (λ (d : AgentCredential). d.id == credential_id) w.agents.agent_credentials ≡ true
    present =
        any_found sv (credential_of agent_id credential_id) (λ d. d.id == credential_id)
          w.agents.agent_credentials c known
          (ground (
            arith,
            (sv.find_first_some (credential_of agent_id credential_id) w.agents.agent_credentials
                known).1,
          ))
