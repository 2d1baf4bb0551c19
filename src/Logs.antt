-- ===== src/Logs.antt =====
-- The Kubernetes logs toolset, holmes/plugins/toolsets/kubernetes_logs.py.
pub mod Lines
pub mod Filter
pub mod Order
pub mod Filtered
pub mod Printed
pub mod Fetch
mod Tests
