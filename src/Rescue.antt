-- ===== src/Rescue.antt =====
-- internal/rescue/rescue.go: restoring an etcd snapshot, or rejoining one server, over SSH.
pub mod Types
pub mod Facts
pub mod Env
pub mod Status
pub mod Monad
pub mod Output
pub mod Exec
pub mod Wait
pub mod Reset
pub mod Perform
pub mod Run
pub mod Build
pub mod Assess
pub mod Preflight
pub mod Ready
pub mod Outcome
pub mod Agents
pub mod Plans
pub mod Order
mod Tests
