-- ===== src/Executor/Stream.antt =====
-- The log pipeline: libthere/src/executor/mod.rs, and the sink of libthere/src/executor/simple.rs.
pub mod Laws
use that_goes_there.Prelude.{ℕ, ◌+◌, String, ◌≡◌, Bool, true, false, List, [], ◌∷◌, ◌++◌, length}
use that_goes_there.Outcome.{Outcome, ok, err, external, ◌>>=◌}
use that_goes_there.Exec.{Exec}

abbrev pub Logs : Type 0
Logs = List String

pub data PartialLogStream : Type 0 where
  next : Logs → PartialLogStream
  end : PartialLogStream

-- How many of the messages end the stream.
abbrev pub ends : List PartialLogStream → ℕ
ends [] = 0
ends (next logs ∷ ms) = ends ms
ends (end ∷ ms) = 1 + ends ms

-- A `tokio::sync::mpsc` channel, as its sender sees it: `send` waits for room, and fails if the
-- receiver is gone; `sent` is all that was ever sent.
pub record Channel : Type 1 where
  pub Chan : Type 0
  pub channel : (capacity : ℕ) → Chan
  pub send : PartialLogStream → Chan → Bool × Chan
  pub sent : Chan → List PartialLogStream
  pub sent-channel : (capacity : ℕ) → sent (channel capacity) ≡ []
  pub sent-send :
      (m : PartialLogStream) (c : Chan) → (send m c).0 ≡ true → sent (send m c).1 ≡ sent c ++ m ∷ []
  pub sent-send_fails :
      (m : PartialLogStream) (c : Chan) → (send m c).0 ≡ false → sent (send m c).1 ≡ sent c

-- The number of logs in a message.
abbrev pub size : PartialLogStream → ℕ
size (next logs) = length logs
size end = 0

abbrev pub sent_or_err {ℓ} : {A : Type ℓ} → Bool → A → Outcome A
sent_or_err true a = ok a
sent_or_err false a = err (external "SendError")

module _ (C : Channel) where
  open C use {Chan, send}

  -- `SimpleLogSink::sink`
  unfoldable pub sink : PartialLogStream → Exec Chan ℕ
  sink logs c = let (done, c') = send logs c in (sent_or_err done (size logs), c')

  -- `LogSink::sink_one`
  unfoldable pub sink_one : String → Exec Chan ℕ
  sink_one log = sink (next (log ∷ []))
