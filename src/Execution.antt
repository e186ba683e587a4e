-- ===== src/Execution.antt =====
-- tasks/orchestrator/execution: state changes with persistence, result texts, and the workflow.
pub mod StateManager
pub mod ResultHandler
pub mod Workflow
