-- ===== src/Observe.antt =====
-- packages/bare-observe/src: an application's calls observed, and the events brought to a viewer.
pub mod Detect
pub mod Exporter
pub mod Reporter
pub mod WrapClient
pub mod Inflight
pub mod Invoke
mod Tests
