-- ===== src/Plan.antt =====
-- libthere/src/plan: the data of plans and the planner.
pub mod Task
pub mod Host
pub mod Visitor
pub mod TaskSet
pub mod ForHost
