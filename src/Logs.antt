-- ===== src/Logs.antt =====
-- internal/logs: matching journal lines against the knowledge base.
pub mod Prefilter
pub mod Knowledge
pub mod Klog
pub mod Streamed
pub mod Level
pub mod Summary
pub mod Classify
mod Tests
