-- ===== src/App.antt =====
-- server/src/app and what stands at its edge: the window for writes, the delays of a write, the thresholds of the
-- UI, and the names of namespaces.
pub mod WriteWindow
pub mod Periods
pub mod Namespaces
pub mod Settings
mod Tests
