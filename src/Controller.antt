-- ===== src/Controller.antt =====
-- there-controller: the server that runs plans on remote hosts.
pub mod Cache
pub mod Apply
pub mod Prepare
pub mod Server
pub mod Keys
pub mod Start
pub mod Pipes
