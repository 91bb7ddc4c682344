-- ===== src/Cli.antt =====
-- there-cli: the command line that validates plans, applies them, and follows a controller's job.
pub mod Args
pub mod Files
pub mod Prompt
pub mod Hosts
pub mod Poll
pub mod Run
pub mod Apply
pub mod Main
