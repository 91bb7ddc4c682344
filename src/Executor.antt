-- ===== src/Executor.antt =====
-- libthere/src/executor: the log pipeline, and the executors that run plans.
pub mod Stream
pub mod State
pub mod Failing
pub mod Source
pub mod Mpsc
pub mod Local
pub mod Ssh
