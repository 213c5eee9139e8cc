-- ===== src/Examples.antt =====
-- Runs of the theorems at small databases.
pub mod Data
mod TaskRuns
mod StoreRuns
mod LayoutRuns
mod ServerRuns
mod WorkerRuns
pub mod ApiRuns
mod DesktopRuns
