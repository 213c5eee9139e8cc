-- ===== src/Server.antt =====
-- internal/httpapi: the handlers and the loops of the server, over the store.
pub mod World
pub mod Completions
pub mod Agents
pub mod Rules
pub mod Steer
pub mod Start
pub mod Dispatch
pub mod Effects
pub mod Held
pub mod Ends
pub mod Once
pub mod History
pub mod Progress
pub mod Quiet
pub mod Api
pub mod Desktop
