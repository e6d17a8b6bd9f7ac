-- ===== src/Agent.antt =====
-- Agents: `AgentExecutionService` (src/intelligence/agent/services/agent-execution.service.ts) and
-- `AgentService` (src/intelligence/agent/agent.service.ts).
pub mod Steps
pub mod Run
pub mod Execution
pub mod Manage
