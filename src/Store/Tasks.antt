-- ===== src/Store/Tasks.antt =====
-- internal/store/collaboration.go: the durable instructions from one agent to another. The first
-- children have the operations, the others what they keep.
pub mod Enqueue
pub mod Delivery
pub mod Notify
pub mod Query
pub mod Evolution
pub mod Inversion
pub mod History
pub mod Effects
pub mod Growth
pub mod Frame
pub mod Retry
pub mod Bounds
pub mod Suppression
pub mod Recovery
