-- ===== src/Agent.antt =====
-- services/workspace-agent: what the workspace agent allows and bounds.
pub mod ShellConcurrency
pub mod Permissions
pub mod CommandAnalysis
pub mod PathSecurity
