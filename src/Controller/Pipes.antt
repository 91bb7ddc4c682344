-- ===== src/Controller/Pipes.antt =====
-- The runs of several hosts side by side: what their executors send, the channels, and the reading
-- tasks of there-controller/src/executor.rs take turns in any order, with each other and with the
-- other jobs of the store.
pub mod Rest
pub mod Came
pub mod Kept
pub mod Work
pub mod Settle
pub mod Seen
pub mod Stuck
pub mod Hosts
pub mod Assigned
pub mod Job
use that_goes_there.Prelude.{
  ℕ, ◌<◌, String, ◌≡◌, Bool, true, false, some, List, [], ◌∷◌, ◌++◌, str_eq, set_at,
}
use that_goes_there.Outcome.{Outcome, ok, err, panic}
use that_goes_there.Executor.Stream.{PartialLogStream, next, end}
use that_goes_there.Executor.Source
use that_goes_there.Executor.Source.{SimpleLogSource, source, round}
use that_goes_there.Executor.Mpsc.{Mpsc}
use that_goes_there.Controller.Cache.{Cache}
use that_goes_there.Controller.Apply.{store_logs}
use that_goes_there.Controller.Server.History.{Event, log, ident, on_store}

-- What the reading task stores of a message of `source`.
abbrev pub stored : String → String → Outcome PartialLogStream → List Event
stored job_id host (ok (next logs)) = log job_id host logs ∷ []
stored job_id host (ok end) = []
stored job_id host (err e) = []
stored job_id host (panic p) = []

module _ (Q : Mpsc) where
  open Q use {Chan, channel, try_recv}

  -- A run of `do_apply`: what its executor has still to send, and the reading task, with whether it
  -- is in its loop.
  pub record Pipe : Type 0 where
    pub pending : List PartialLogStream
    pub reader : SimpleLogSource Chan
    pub reading : Bool

  -- At the start of `do_apply`.
  abbrev pub opened : List PartialLogStream → Pipe
  opened ms = record { pending = ms; reader = Source.new (channel 1024); reading = true }

  -- The executor has sent a message, and its channel is `c` now.
  abbrev pub sent : List PartialLogStream → Chan → Pipe → Pipe
  sent rest c p = record p { pending = rest; reader = record p.reader { rx = c } }

  abbrev pub read_on : Bool → SimpleLogSource Chan → Pipe → Pipe
  read_on more reader p = record p { reader = reader; reading = more }

  module _ (J : Cache) where
    open J use {Jobs}

    pub record System : Type 0 where
      pub pipe : ℕ → Pipe
      pub jobs : Jobs

    module _ (job_id : String) (hostname : ℕ → String) where
      -- One round of the reading task of the run `i`.
      abbrev pub read_round : ℕ → System → System
      read_round i s =
          let (r, reader) = source try_recv (s.pipe i).reader in
          let (more, jobs) = round (store_logs J job_id (hostname i)) r s.jobs in
          record { pipe = set_at i (read_on more reader (s.pipe i)) s.pipe; jobs = jobs }

      -- One step of one of `n` runs or of another job, and the events that it is for the store.
      pub data Step (n : ℕ) (s : System) : List Event → System → Type 0 where
        send_step :
            (i : ℕ) (m : PartialLogStream) (rest : List PartialLogStream) (c : Chan)
            → i < n
            → (s.pipe i).reading ≡ true
            → (s.pipe i).pending ≡ m ∷ rest
            → Q.send m (s.pipe i).reader.rx ≡ some c
            → Step n s [] (record s { pipe = set_at i (sent rest c (s.pipe i)) s.pipe })
        read_step :
            (i : ℕ)
            → i < n
            → (s.pipe i).reading ≡ true
            → Step n s
                (stored job_id (hostname i) (source try_recv (s.pipe i).reader).0)
                (read_round i s)
        elsewhere :
            (e : Event)
            → str_eq (ident e) job_id ≡ false
            → Step n s (e ∷ []) (record s { jobs = on_store J e s.jobs })

      -- All runs are at their start, and the store is at `jobs`.
      abbrev pub started : (ℕ → List PartialLogStream) → Jobs → System
      started messages jobs = record { pipe = λ i. opened (messages i); jobs = jobs }

      -- Where steps lead, with the events of the store so far.
      pub data Reach (n : ℕ) (s : System) : List Event → System → Type 0 where
        initially : Reach n s [] s
        next_step :
            {es fs : List Event} {t u : System}
            → Reach n s es t
            → Step n t fs u
            → Reach n s (es ++ fs) u
