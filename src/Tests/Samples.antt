-- ===== src/Tests/Samples.antt =====
-- Small plans and hosts, and the packages' parts played by lists.
use mathlib.Core.Logic.{ite}
use native.Mathlib.Decide.{dec_lt}
use that_goes_there.Prelude.{
  ℕ, ◌<◌, ◌≤◌, length, arith, String, ◌≡◌, refl, sym, Bool, true, false, Option, none, some, List,
  [], ◌∷◌, ◌++◌, Bool-cases, inl, inr, str_eq, eq_iff, eq_refl, if◌then◌else◌,
}
use that_goes_there.Plan.Task.{command, exe_exists, PlannedTask, Plan}
use that_goes_there.Plan.Host.{Host, HostConfig}
use that_goes_there.Plan.TaskSet.{TaskSet}
use that_goes_there.Executor.Stream.{PartialLogStream, Channel}
use that_goes_there.Executor.Source.{Received, message, empty, disconnected, Receiver}
use that_goes_there.Executor.Mpsc.{Mpsc}
use that_goes_there.Executor.Local.{Machine, directory, stdout, text, closed}
use that_goes_there.Executor.Ssh.{Remote, exit_status}
use that_goes_there.Ipc.{JobStartRequest, JobState, running}
use that_goes_there.Controller.Cache.{Cache}

-- One word for each text but the empty one.
abbrev pub one_word : String → Option (List String)
one_word s = if str_eq s "" then some [] else some (s ∷ [])

abbrev pub quoted : String → String
quoted s = s

abbrev pub uptime : PlannedTask
uptime = record {
  name = "uptime";
  command = "uptime" ∷ [];
  ensures = exe_exists "uptime" ∷ [];
  hosts = "web" ∷ [];
}

abbrev pub backup : PlannedTask
backup = record {
  name = "backup";
  command = "backup" ∷ [];
  ensures = exe_exists "backup" ∷ [];
  hosts = "db1" ∷ [];
}

abbrev pub chores : TaskSet
chores = record {
  name = "chores";
  tasks = command "uptime" "uptime" ("web" ∷ []) ∷ command "backup" "backup" ("db1" ∷ []) ∷ [];
}

abbrev pub chores_plan : Plan
chores_plan = record { name = "chores"; blueprint = uptime ∷ backup ∷ [] }

abbrev pub server : Host
server = record { host = "10.0.0.1"; port = 22; executor = "ssh"; remote_user = none }

-- `web1` stands in two groups.
abbrev pub site : HostConfig
site = record {
  hosts = ("web1", server) ∷ ("db1", server) ∷ [];
  groups = ("web", "web1" ∷ []) ∷ ("all", "web1" ∷ "db1" ∷ []) ∷ [];
}

pub true_ne_false : {X : Type 0} → true ≡ false → X
true_ne_false h = absurd (cc)

pub some-text : {a b : String} → some a ≡ some b → a ≡ b
some-text h = cc

pub some_ne_none : {A X : Type 0} {a : A} → some a ≡ none → X
some_ne_none h = absurd (cc)

-- A channel with room for all messages.
abbrev pub unbounded : Channel
unbounded = record {
  Chan = List PartialLogStream;
  channel = λ n. [];
  send = λ m c. (true, c ++ m ∷ []);
  sent = λ c. c;
  sent-channel = λ n. refl;
  sent-send = λ m c h. refl;
  sent-send_fails = λ m c h. true_ne_false h;
}

abbrev pub take_first : List PartialLogStream → Bool → Received × List PartialLogStream × Bool
take_first [] true = (empty, [], true)
take_first [] false = (disconnected, [], false)
take_first (m ∷ ms) o = (message m, ms, o)

pub take_first-message :
    (q : List PartialLogStream) (o : Bool) (m : PartialLogStream) (ms : List PartialLogStream)
    → q ≡ m ∷ ms
    → ((take_first q o).0 ≡ message m) × ((take_first q o).1 ≡ ms) × ((take_first q o).2 ≡ o)
take_first-message q o m ms h = rw h (refl, refl, refl)

pub take_first-empty :
    (q : List PartialLogStream) (o : Bool)
    → q ≡ []
    → o ≡ true
    → ((take_first q o).0 ≡ empty) × ((take_first q o).1 ≡ []) × ((take_first q o).2 ≡ true)
take_first-empty q o h k = rw (h, k) (refl, refl, refl)

pub take_first-closed :
    (q : List PartialLogStream) (o : Bool) → q ≡ [] → o ≡ false → (take_first q o).0 ≡ disconnected
take_first-closed q o h k = rw (h, k) refl

abbrev pub queue : Receiver unbounded
queue = record {
  Rx = List PartialLogStream × Bool;
  try_recv = λ rx. let (r, ms, o) = take_first rx.0 rx.1 in (r, (ms, o));
  queued = λ rx. rx.0;
  is_open = λ rx. rx.1;
  attach = λ c. (c, true);
  queued-attach = λ c. refl;
  is_open-attach = λ c. refl;
  hang_up = λ rx. (rx.0, false);
  queued-hang_up = λ rx. refl;
  is_open-hang_up = λ rx. refl;
  recv_message = λ rx m ms q. take_first-message rx.0 rx.1 m ms q;
  recv_empty = λ rx q o. take_first-empty rx.0 rx.1 q o;
  recv_closed = λ rx q o. take_first-closed rx.0 rx.1 q o;
}

-- A machine with every directory and executable, on which each child writes one line.
abbrev pub workstation : Machine
workstation = record {
  World = List (List String);
  metadata = λ p w. (some directory, w);
  which = λ e w. (true, w);
  spawn = λ c args w. (some (stdout (text "done") ∷ closed ∷ []), w ++ (c ∷ args) ∷ []);
  commands = λ w. w;
  commands-metadata = λ p w. refl;
  commands-which = λ e w. refl;
  commands-spawn = λ c args w rounds h. refl;
  commands-spawn_fails = λ c args w h. some_ne_none h;
}

-- A remote host on which every command succeeds.
abbrev pub reachable : Remote
reachable = record {
  World = List String;
  connect = λ a w. (true, w);
  authenticate = λ u w. (some true, w);
  open_session = λ w. (true, w);
  exec = λ c w. (some (exit_status 0 ∷ []), w ++ c ∷ []);
  executed = λ w. w;
  executed-connect = λ a w. refl;
  executed-authenticate = λ u w. refl;
  executed-open_session = λ w. refl;
  executed-exec = λ c w fs h. refl;
  executed-exec_fails = λ c w h. some_ne_none h;
}

-- One that no connection reaches.
abbrev pub unreachable : Remote
unreachable = record {
  World = List String;
  connect = λ a w. (false, w);
  authenticate = λ u w. (none, w);
  open_session = λ w. (false, w);
  exec = λ c w. (none, w);
  executed = λ w. w;
  executed-connect = λ a w. refl;
  executed-authenticate = λ u w. refl;
  executed-open_session = λ w. refl;
  executed-exec = λ c w fs h. some_ne_none (sym h);
  executed-exec_fails = λ c w h. refl;
}

-- One that refuses the key.
abbrev pub refusing : Remote
refusing = record {
  World = List String;
  connect = λ a w. (true, w);
  authenticate = λ u w. (some false, w);
  open_session = λ w. (false, w);
  exec = λ c w. (none, w);
  executed = λ w. w;
  executed-connect = λ a w. refl;
  executed-authenticate = λ u w. refl;
  executed-open_session = λ w. refl;
  executed-exec = λ c w fs h. some_ne_none (sym h);
  executed-exec_fails = λ c w h. refl;
}

-- A machine with no executable.
abbrev pub bare : Machine
bare = record workstation { which = λ e w. (false, w); commands-which = λ e w. refl }

-- A remote host on which every command fails.
abbrev pub failing : Remote
failing = record reachable {
  exec = λ c w. (some (exit_status 1 ∷ []), w ++ c ∷ []);
  executed-exec = λ c w fs h. refl;
  executed-exec_fails = λ c w h. some_ne_none h;
}

abbrev pub look_up : String → List (String × JobState) → Option JobState
look_up k [] = none
look_up k ((j, v) ∷ rest) = if str_eq j k then some v else look_up k rest

pub look_up_other :
    (k j : String) (v : JobState) (c : List (String × JobState))
    → (k ≡ j → ⊥)
    → look_up j ((k, v) ∷ c) ≡ look_up j c
look_up_other k j v c ne = elim (Bool-cases (str_eq k j)) [
  | inl e ↦ absurd (ne ((eq_iff k j).0 e))
  | inr e ↦ rw e refl
]

-- A store that evicts nothing.
abbrev pub store : Cache
store = record {
  Jobs = List (String × JobState);
  new = λ n. [];
  get = look_up;
  insert = λ k v c. (k, v) ∷ c;
  get-new = λ n k. refl;
  get-insert_self = λ k v c. inl (rw (eq_refl k) refl);
  get-insert_ne = λ k j v c ne. inl (look_up_other k j v c ne);
}

abbrev pub request : JobStartRequest
request = record { plan = chores_plan; hosts = site }

abbrev pub job : JobState
job = record { logs = []; plan = chores_plan; hosts = site; status = running }

-- A channel of `capacity` messages, as a list.
abbrev bounded_send :
    PartialLogStream → List PartialLogStream × ℕ → Option (List PartialLogStream × ℕ)
bounded_send m (ms, k) = ite (dec_lt (length ms) k) (some (ms ++ m ∷ [], k)) none

pub bounded-room :
    (m : PartialLogStream) (c : List PartialLogStream × ℕ)
    → length c.0 < c.1
    → (after : List PartialLogStream × ℕ) × (bounded_send m c ≡ some after)
      × (after.0 ≡ c.0 ++ m ∷ [])
      × (after.1 ≡ c.1)
bounded-room m (ms, k) space = ((ms ++ m ∷ [], k), ground arith, refl, refl)

pub bounded-full :
    (m : PartialLogStream) (c : List PartialLogStream × ℕ)
    → c.1 ≤ length c.0
    → bounded_send m c ≡ none
bounded-full m (ms, k) full = ground arith

abbrev pub bounded : Mpsc
bounded = record {
  Chan = List PartialLogStream × ℕ;
  channel = λ n. ([], n);
  send = bounded_send;
  try_recv = λ c. let (r, ms, o) = take_first c.0 true in (r, (ms, c.1));
  held = λ c. c.0;
  capacity = λ c. c.1;
  held-channel = λ n. refl;
  capacity-channel = λ n. refl;
  send_room = bounded-room;
  send_full = bounded-full;
  recv_message =
      λ c m ms q. let (r, left, o) = take_first-message c.0 true m ms q in (r, left, refl);
  recv_empty = λ c q. let (r, left, o) = take_first-empty c.0 true q refl in (r, left, refl);
}
