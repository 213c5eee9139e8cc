-- ===== src/Worker.antt =====
-- internal/agentworker: the process beside an agent's app-server, which takes turns and steers.
pub mod Machine
pub mod Steer
pub mod Handler
pub mod Once
pub mod Ledger
pub mod Retry
pub mod Approvals
