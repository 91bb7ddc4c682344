-- ===== src/Lib.antt =====
-- there: plans of tasks, applied to hosts over SSH or locally.
--
-- The program has a library, libthere, that compiles task sets into plans and executes plans on a
-- host; a controller, there-controller, an HTTP server that runs a plan on the hosts of a host
-- configuration and keeps each job's logs and status; an agent, there-agent, that fetches the
-- controller's key; and a command line, there-cli, that validates plans, applies them by the
-- executors itself, or has a controller apply them and prints the job's logs. A task set is planned
-- once. The controller, or the command line, selects each host's part of the plan, hands it to an
-- executor, and a reading task copies the executor's log messages from a channel into the job, or
-- onto the terminal.
--
-- Parts and files:
--   * Plan: libthere/src/plan. Plan/Task (mod.rs: Task, Ensure, PlannedTask, Plan and
--     from_shell_command), Plan/Host (host.rs), Plan/Visitor (visitor.rs: visit_task), Plan/TaskSet
--     (mod.rs: TaskSet and its planning), Plan/ForHost (mod.rs: plan_for_host; Unordered has the
--     groups as a quotient that forgets their order). A `&mut self` method is a function on the state
--     that gives an outcome and the next state, and a failure keeps what was written before.
--   * Executor: libthere/src/executor. Executor/Stream (mod.rs, and SimpleLogSink of simple.rs),
--     Executor/Source (SimpleLogSource of simple.rs, and the loop of the reading task),
--     Executor/Source/Join (a result behind the join of that task), Executor/Mpsc (the channel as
--     both its ends see it), Executor/State (what both executors keep), Executor/Failing (which
--     prerequisites fail), Executor/Local (simple.rs), Executor/Ssh (ssh.rs). Local/Transcript and
--     Ssh/Transcript have the messages of a run (Local/Heard what is read of its children).
--     Ssh/Opening has what comes before the tasks, Ssh/Outcomes how a run may end, and Ssh/Verdicts
--     what the tests of a prerequisite tell of a host's directories, files and executables.
--   * Ipc: libthere/src/ipc/http.rs. Log: libthere/src/log/mod.rs (the filter of frames).
--   * Controller: there-controller/src. Controller/Cache (the job store's interface),
--     Controller/Apply (executor.rs: do_apply), Controller/Prepare (executor.rs: apply_plan),
--     Controller/Server (http_server.rs: run_plan and the task that it starts, get_job_status,
--     bootstrap), Controller/Keys (keys.rs), Controller/Start (main.rs). Controller/Server/Steps has
--     the interleavings of the holders of the store's lock as a relation, Controller/Server/History a
--     job on its own as the specification of the store, Controller/Server/Answers what a request for
--     a job gets, and Controller/Server/Whole a job of one host from its start to its end.
--     Controller/Pipes has the runs of several hosts as a step relation: an executor that sends where
--     its channel has room, a round of a reading task (executor.rs, the spawned loop), or another
--     job's event.
--   * Agent: there-agent/src/main.rs.
--   * Cli: there-cli/src. Cli/Main (main.rs, and run of commands/plan.rs), Cli/Args and Cli/Prompt
--     (commands/mod.rs), and of commands/plan.rs: Cli/Files (read_hosts_config), Cli/Hosts
--     (subcommand_validate, inspect_host_group and the dry run), Cli/Apply (subcommand_apply),
--     Cli/Run (do_apply), Cli/Poll (the loop that follows a controller's job; Asked has the
--     controller's answers to it).
--   * Outcome and Exec: results, errors and panics as values; methods that change state. Text:
--     decimal numbers, splitting and joining, and `Path::parent`. Prelude: shared names and lemmas.
--   * Tests: concrete inputs, and each result at one of them.
--
-- What others' code does is a parameter: `shell_words::split` is a function; the channel of
-- `tokio::sync::mpsc` (Channel, Receiver, Mpsc), the local host (Machine), a `thrussh` session
-- (Remote), the job cache (Cache), files (File, KeyFile), the key encodings (KeyCodec), a terminal
-- that asks (Terminal), the arguments that clap has read (ArgMatches), and the text of a job
-- (JobCodec) are records of operations and the laws that their documentation gives. A sender waits
-- for room in a channel: a run of one executor on its own does not show that, the runs side by side
-- do, where an executor's messages are those of its run and each run has a remote host of its own.
-- A machine gives the loop over a child what it reads, as it happens: output that is unread when the
-- child's exit is seen is in no round of that loop. Nothing is said of a controller's file once a
-- write has returned, since the write may not have got there and the code does not flush.
-- `Debug` texts of strings and reports are functions. A `HashMap` is an association list in the
-- order of its iteration.
--
-- Bounds: the counter of completed tasks is a u32 and wraps, so the theorems on it ask for fewer
-- than 2^32 tasks. The reading loop polls, so it has fuel: one round more than there are messages
-- is enough when the stream is ended, and no number is when it is not. The decimal digits of a
-- number have the number itself as fuel. All other loops run over lists.
--
-- Not modelled: serialisation (serde, the parsers of serde_yaml are parameters), tracing output and
-- its set-up (the rest of libthere/src/log/mod.rs), the HTTP routing and transport, the declaration
-- of the arguments by clap, and the pauses between two looks at a job. The results of concurrent
-- futures are a parameter, in any order.
pub mod Prelude
pub mod Text
pub mod Outcome
pub mod Exec
pub mod Plan
pub mod Executor
pub mod Ipc
pub mod Log
pub mod Controller
pub mod Agent
pub mod Cli
pub mod Tests
