-- ===== src/Executor/Source.antt =====
-- The end of the log pipeline that reads: `SimpleLogSource` of libthere/src/executor/simple.rs, and
-- the loop of the task that both `do_apply` functions start.
pub mod Loop
pub mod Join
use that_goes_there.Prelude.{
  ℕ, zero, suc, ◌≡◌, Bool, true, false, Option, none, some, List, [], ◌∷◌, if◌then◌else◌,
}
use that_goes_there.Outcome.{Outcome, ok, err, panic, eyre}
use that_goes_there.Exec.{Exec}
use that_goes_there.Executor.Stream.{Logs, PartialLogStream, next, end, Channel}

-- The result of `try_recv`.
pub data Received : Type 0 where
  message : PartialLogStream → Received
  empty disconnected : Received

-- The receiver of a channel on which nothing more is sent: `queued` is what was sent and not yet
-- received, and `is_open` whether a sender is left.
pub record Receiver (C : Channel) : Type 1 where
  pub Rx : Type 0
  pub try_recv : Rx → Received × Rx
  pub queued : Rx → List PartialLogStream
  pub is_open : Rx → Bool
  pub attach : C.Chan → Rx
  pub queued-attach : (c : C.Chan) → queued (attach c) ≡ C.sent c
  pub is_open-attach : (c : C.Chan) → is_open (attach c) ≡ true
  -- The sender is dropped.
  pub hang_up : Rx → Rx
  pub queued-hang_up : (rx : Rx) → queued (hang_up rx) ≡ queued rx
  pub is_open-hang_up : (rx : Rx) → is_open (hang_up rx) ≡ false
  pub recv_message :
      (rx : Rx) (m : PartialLogStream) (ms : List PartialLogStream)
      → queued rx ≡ m ∷ ms
      → ((try_recv rx).0 ≡ message m)
        × (queued (try_recv rx).1 ≡ ms)
        × (is_open (try_recv rx).1 ≡ is_open rx)
  pub recv_empty :
      (rx : Rx)
      → queued rx ≡ []
      → is_open rx ≡ true
      → ((try_recv rx).0 ≡ empty) × (queued (try_recv rx).1 ≡ []) × (is_open (try_recv rx).1 ≡ true)
  pub recv_closed : (rx : Rx) → queued rx ≡ [] → is_open rx ≡ false → (try_recv rx).0 ≡ disconnected

pub record SimpleLogSource (Rx : Type 0) : Type 0 where
  pub rx : Rx
  pub ended : Bool

unfoldable pub new : {Rx : Type 0} → Rx → SimpleLogSource Rx
new rx = record { rx = rx; ended = false }

-- `source` behind the test of `ended`.
unfoldable pub on_received :
    {Rx : Type 0} → Received → Rx → Outcome PartialLogStream × SimpleLogSource Rx
on_received (message (next logs)) rx = (ok (next logs), record { rx = rx; ended = false })
on_received (message end) rx = (ok end, record { rx = rx; ended = true })
on_received empty rx = (ok (next []), record { rx = rx; ended = false })
on_received disconnected rx = (err (eyre "sink lost"), record { rx = rx; ended = false })

unfoldable pub source :
    {Rx : Type 0} → (try_recv : Rx → Received × Rx) → Exec (SimpleLogSource Rx) PartialLogStream
source try_recv s =
    if s.ended
    then (err (eyre "log source already ended"), s)
    else let (r, rx) = try_recv s.rx in on_received r rx

-- One round of the reading task: what it does with the logs, and whether it goes on.
abbrev pub round {ℓ} : {W : Type ℓ} → (Logs → W → W) → Outcome PartialLogStream → W → Bool × W
round handle (ok (next logs)) w = (true, handle logs w)
round handle (ok end) w = (false, w)
round handle (err e) w = (false, w)
round handle (panic p) w = (false, w)

module _ {C : Channel} (V : Receiver C) where
  -- `while let Ok(partial_stream) = log_source.source().await { … }` with fuel; `none` means that
  -- the loop is still running.
  unfoldable pub read_loop {ℓ} :
      {W : Type ℓ} → (Logs → W → W) → ℕ → SimpleLogSource V.Rx → W → Option W
  read_loop handle zero s w = none
  read_loop handle (suc fuel) s w =
      let (r, s') = source V.try_recv s in
      let (more, w') = round handle r w in
      let rest = read_loop handle fuel s' w' in if more then rest else some w'
