-- ===== src/Plan/Host.antt =====
-- libthere/src/plan/host.rs. A `HashMap` is an association list, in the order of its iteration.
use that_goes_there.Prelude.{ℕ, String, Option, none, some, List, [], ◌∷◌, str_eq, if◌then◌else◌}

-- u16
abbrev pub Port : Type 0
Port = ℕ

abbrev pub default_ssh_port : Port
default_ssh_port = 22

pub record Host : Type 0 where
  pub host : String
  pub port : Port
  pub executor : String
  pub remote_user : Option String

pub record HostConfig : Type 0 where
  pub hosts : List (String × Host)
  pub groups : List (String × List String)

unfoldable pub real_remote_user : Host → String
real_remote_user h = elim h.remote_user [ none ↦ "root" | some user ↦ user ]

-- `HashMap::get`
unfoldable pub get {ℓ} : {V : Type ℓ} → List (String × V) → String → Option V
get [] k = none
get ((j, v) ∷ m) k = if str_eq j k then some v else get m k
