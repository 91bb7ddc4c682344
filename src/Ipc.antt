-- ===== src/Ipc.antt =====
-- libthere/src/ipc/http.rs: what the controller and its clients exchange.
use that_goes_there.Prelude.{String, List}
use that_goes_there.Plan.Task.{Plan}
use that_goes_there.Plan.Host.{HostConfig}

pub record JobStartRequest : Type 0 where
  pub plan : Plan
  pub hosts : HostConfig

pub data JobStatus : Type 0 where
  running completed failed : JobStatus

pub record LogEntry : Type 0 where
  pub hostname : String
  pub log : String

pub record JobState : Type 0 where
  pub logs : List (String × List LogEntry)
  pub plan : Plan
  pub hosts : HostConfig
  pub status : JobStatus
