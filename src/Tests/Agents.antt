-- ===== src/Tests/Agents.antt =====
-- Runs of small agents.
use mathlib.Core.List.Memᴰ
use auth_backend.Base.{
  false, ℕ, ◌≡◌, ◌≤◌, refl, Bool, ◌⊎◌, inl, inr, true, false, none, some, [], ◌∷◌, Memᴰ, length,
  arith, ap,
}
use auth_backend.Model.Json.{null}
use auth_backend.Model.{World}
use auth_backend.Model.Agents.{AgentRow, AgentCredential}
use auth_backend.Tests.Fixtures.{services, world}
use auth_backend.Agent.Manage.{deletes, agent_not_found, serve}
use auth_backend.Agent.Manage.Owned.{serve_refused}
use auth_backend.Action.{ok, err, plain_error}
use auth_backend.Agent.Steps.{
  AgentStep, prompt, condition, api_call, Agent, AgentExecution, completed, Outside,
}
use auth_backend.Agent.Run.{execute_step, run_config}
use auth_backend.Agent.Execution.{pointer, execute_agent}
use auth_backend.Agent.Execution.Ends.{HasUniqueIds, IsForward, execute_agent_ends}
use auth_backend.Agent.Execution.Cycles.{execute_agent_never}

-- The model answers, and requests fail.
abbrev outside : Outside
outside = record {
  render = λ variables input results text. text;
  generate_content = λ n model text. ok ("hello", 5);
  make_api_call = λ n endpoint method headers body retry. err (plain_error "API call failed");
  validate_data = λ value schema. none;
}

abbrev ask : AgentStep
ask = record {
  id = 1;
  config = prompt "hi" "gpt" "answer" none;
  order = 0;
  next_on_success = some 2;
  next_on_failure = none;
}

abbrev post : AgentStep
post = record {
  id = 2;
  config = api_call "https://x.org" "post" [] none "posted" none;
  order = 1;
  next_on_success = none;
  next_on_failure = none;
}

abbrev two_steps : Agent
two_steps = record { steps = ask ∷ post ∷ []; variables = [] }

abbrev again : AgentStep
again = record {
  id = 3;
  config = condition;
  order = 0;
  next_on_success = some 3;
  next_on_failure = none;
}

abbrev round : Agent
round = record { steps = again ∷ []; variables = [] }

execute_agent_never_example : execute_agent outside 1000 "a" (some round) null ≡ none
unfolding execute_step run_config
execute_agent_never_example =
    execute_agent_never outside "a" round null again [] refl refl (λ c. refl) 1000

either : (s : AgentStep) → Memᴰ s two_steps.steps → (s ≡ ask) ⊎ (s ≡ post)
either s m = elim (Memᴰ.cases_cons m) [ inl e ↦ inl e | inr n ↦ inr (Memᴰ.eq_of_singleton n) ]

ids : HasUniqueIds two_steps.steps
ids s t m n e = elim (either s m) [
  | inl a ↦ elim (either t n) [
    | inl b ↦ rw (a, b) refl
    | inr b ↦
        absurd (ground (arith, ap (λ (s : AgentStep). s.id) a, ap (λ (s : AgentStep). s.id) b, e))
  ]
  | inr a ↦ elim (either t n) [
    | inl b ↦
        absurd (ground (arith, ap (λ (s : AgentStep). s.id) a, ap (λ (s : AgentStep). s.id) b, e))
    | inr b ↦ rw (a, b) refl
  ]
]

leads_on : IsForward two_steps.steps
leads_on s t success m n e = elim (either s m) [
  | inl a ↦ elim (either t n) [
    | inl b ↦ absurd (from_ask success (rw (a, b) at e))
    | inr b ↦ rw (a, b) (omega arith)
  ]
  | inr a ↦ absurd (from_post success (rw a at e))
]
  where
    from_ask : (success : Bool) → pointer ask success ≡ some 1 → ⊥
    from_ask true e = ground (arith, e)
    from_ask false e = cc

    from_post : (success : Bool) {i : ℕ} → pointer post success ≡ some i → ⊥
    from_post true e = cc
    from_post false e = cc

execute_agent_ends_example :
    (e : AgentExecution) × (execute_agent outside 2 "a" (some two_steps) null ≡ some e)
    × (e.status ≡ completed)
    × (length e.execution_path ≤ 2)
execute_agent_ends_example =
    execute_agent_ends outside "a" two_steps null
      ((λ t m. rw (Memᴰ.eq_of_singleton m) (omega arith)), ((λ t m. elim m [ ]), tt)) ids leads_on

abbrev anns_agent : AgentRow
anns_agent = record { id = 50; user_id = 1; name = "Helper"; description = none }

abbrev api_key : AgentCredential
api_key = record { id = 51; agent_id = 50; name = "key"; type = "api_key"; value = "sealed" }

-- Ann has an agent with a credential.
abbrev with_agent : World
with_agent = record world {
  agents = record {
    agents = anns_agent ∷ [];
    agent_steps = [];
    agent_variables = [];
    agent_credentials = api_key ∷ [];
  };
}

serve_refused_example :
    serve services (λ s. s) 2 50 deletes with_agent ≡ (err agent_not_found, with_agent)
serve_refused_example =
    serve_refused services (λ s. s) 2 50 deletes with_agent
      (λ a m. rw (Memᴰ.eq_of_singleton m) refl)
