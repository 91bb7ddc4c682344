-- ===== src/Tests.antt =====
-- Concrete inputs, and the theorems at them.
pub mod Samples
pub mod Plans
pub mod Runs
pub mod Jobs
pub mod Whole
pub mod Hosts
pub mod Job
pub mod Watched
pub mod Keys
pub mod Agent
pub mod Store
pub mod Transcript
pub mod Cli
pub mod Log
