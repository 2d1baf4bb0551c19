-- ===== src/Operator.antt =====
-- The Kubernetes operator of scheduled health checks, holmes_operator.
pub mod Schedule
pub mod Matches
pub mod Events
pub mod Startup
pub mod Restart
pub mod Status
pub mod Watch
pub mod Atomic
pub mod History
pub mod Termination
pub mod StatusTests
pub mod Tests
