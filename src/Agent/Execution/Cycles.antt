-- ===== src/Agent/Execution/Cycles.antt =====
-- An agent whose first step leads back to itself.
use auth_backend.Base.{
  ℕ, zero, suc, ◌≡◌, refl, ap, ◌∙◌, String, true, none, some, List, ◌∷◌, ==_refl, if◌then◌else◌,
}
use auth_backend.Model.Json.{Json}
use auth_backend.Agent.Steps.{AgentStep, Agent, Context, Outside}
use auth_backend.Agent.Run.{execute_step}
use auth_backend.Agent.Execution.{
  AgentRun, is_success, find_step, first_step, get_next_step, advance, run_steps, begin,
  execute_agent,
}

module _ (out : Outside) (s : AgentStep) (ss : List AgentStep)
    (back : s.next_on_success ≡ some s.id)
    (works : (c : Context) → is_success (execute_step out s c).0 ≡ true) where
  stays : (run : AgentRun) → get_next_step (s ∷ ss) s (advance out s run).1 ≡ some s
  unfolding get_next_step advance
  stays run =
      rw (works run.context, if◌then◌else◌, back, find_step, ==_refl s.id, if◌then◌else◌) refl

  runs_on : (fuel : ℕ) (run : AgentRun) → run_steps out fuel (s ∷ ss) (some s) run ≡ none
  unfolding run_steps
  runs_on zero run = refl
  runs_on (suc fuel) run =
      ap (λ o. run_steps out fuel (s ∷ ss) o (advance out s run).0) (stays run)
      ∙ runs_on fuel (advance out s run).0

-- An agent whose first step always succeeds and leads back to itself never ends: no number of
-- turns of the loop is enough.
pub execute_agent_never :
    (out : Outside) (agent_id : String) (agent : Agent) (input : Json) (s : AgentStep)
    (ss : List AgentStep) (steps : agent.steps ≡ s ∷ ss) (back : s.next_on_success ≡ some s.id)
    (works : (c : Context) → is_success (execute_step out s c).0 ≡ true) (fuel : ℕ)
    → execute_agent out fuel agent_id (some agent) input ≡ none
unfolding execute_agent
execute_agent_never out agent_id agent input s ss steps back works fuel =
    rw (execute_agent, never) refl
  where
    never : run_steps out fuel agent.steps (first_step agent.steps) (begin out input agent) ≡ none
    never = rw (steps, first_step) (runs_on out s ss back works fuel (begin out input agent))
