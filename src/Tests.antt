-- ===== src/Tests.antt =====
-- Concrete inputs at which the theorems apply.
pub mod Data
mod Blocks
mod Peers
mod Session
mod Genesis
mod Node
mod Chain
mod Finality
mod Service
mod Intake
