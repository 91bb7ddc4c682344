-- ===== src/Controller/Pipes/Rest.antt =====
-- What is still to come in one run: the messages that its channel holds and those that its executor
-- has still to send.
use mathlib.Core.List.{append_assoc}
use that_goes_there.Prelude.{
  ◌+◌, ◌≤◌, ◌≡◌, ◌≢◌, Bool, ◌⊎◌, refl, sym, ap, ◌∙◌, arith, true, false, some, List, [], ◌∷◌, ◌++◌,
  map, length, length-append,
}
use that_goes_there.Outcome.{ok}
use that_goes_there.Executor.Stream.{Logs, PartialLogStream, next, end}
use that_goes_there.Executor.Source
use that_goes_there.Executor.Source.{SimpleLogSource, source}
use that_goes_there.Executor.Mpsc.{Mpsc, send-some, source-idle, source-took, source-last}
use that_goes_there.Controller.Pipes.{Pipe, opened, sent, read_on}

-- Logs in messages, and the end.
abbrev pub closed : List Logs → List PartialLogStream
closed ls = map next ls ++ end ∷ []

append_right-nil : (xs ys : List PartialLogStream) → xs ++ ys ≡ [] → ys ≡ []
append_right-nil [] ys h = h
append_right-nil (x ∷ xs) ys h = absurd (cc)

cons-tail : {x y : PartialLogStream} {xs ys : List PartialLogStream} → x ∷ xs ≡ y ∷ ys → xs ≡ ys
cons-tail h = cc

next-logs : {a b : Logs} {xs ys : List PartialLogStream} → next a ∷ xs ≡ next b ∷ ys → a ≡ b
next-logs h = cc

module _ (Q : Mpsc) where
  open Q use {Chan, held, capacity, try_recv}

  -- The reading task is in its loop, and these logs are still to come.
  pub record IsOpen (p : Pipe Q) (ls : List Logs) : Type 0 where
    pub reads : p.reading ≡ true
    pub not_ended : p.reader.ended ≡ false
    pub room : capacity p.reader.rx ≡ 1024
    pub bounded : length (held p.reader.rx) ≤ 1024
    pub rest : held p.reader.rx ++ p.pending ≡ closed ls

  -- The reading task has left its loop, and nothing is left to send.
  pub record IsShut (p : Pipe Q) (ls : List Logs) : Type 0 where
    pub done : p.reading ≡ false
    pub all_sent : p.pending ≡ []
    pub all_read : ls ≡ []

  abbrev pub Rest : Pipe Q → List Logs → Type 0
  Rest p ls = IsOpen p ls ⊎ IsShut p ls

  pub opened-IsOpen : (ls : List Logs) → IsOpen (opened Q (closed ls)) ls
  unfolding Source.new
  opened-IsOpen ls = record {
    reads = refl;
    not_ended = refl;
    room = Q.capacity-channel 1024;
    bounded = omega (arith, ap length (Q.held-channel 1024));
    rest = ap (λ l. l ++ closed ls) (Q.held-channel 1024);
  }

  -- The run behind one round of its reading task.
  abbrev pub read_by : Pipe Q → Bool → Pipe Q
  read_by p more = read_on Q more (source try_recv p.reader).1 p

  -- The three rounds of a reading task: with nothing to read, with logs, and with the end.
  pub data Round (p : Pipe Q) (ls : List Logs) : Type 0 where
    idle :
        held p.reader.rx ≡ []
        → (source try_recv p.reader).0 ≡ ok (next [])
        → IsOpen (read_by p true) ls
        → held (read_by p true).reader.rx ≡ []
        → Round p ls
    took :
        (logs : Logs) (later : List Logs)
        → ls ≡ logs ∷ later
        → (source try_recv p.reader).0 ≡ ok (next logs)
        → IsOpen (read_by p true) later
        → length (held p.reader.rx) ≡ 1 + length (held (read_by p true).reader.rx)
        → Round p ls
    last :
        ls ≡ []
        → (source try_recv p.reader).0 ≡ ok end
        → IsShut (read_by p false) ls
        → length (held p.reader.rx) ≡ 1 + length (held (read_by p false).reader.rx)
        → Round p ls

  module _ (p : Pipe Q) (ls : List Logs) (h : IsOpen p ls) where
    pub sent-IsOpen :
        (m : PartialLogStream) (rest : List PartialLogStream) (c : Chan)
        → p.pending ≡ m ∷ rest
        → Q.send m p.reader.rx ≡ some c
        → IsOpen (sent Q rest c p) ls
    sent-IsOpen m rest c first taken =
        let (space, has, size) = send-some Q m p.reader.rx c taken in
        record {
          reads = h.reads;
          not_ended = h.not_ended;
          room = size ∙ h.room;
          bounded =
              omega
                (arith, ap length has, length-append (held p.reader.rx) (m ∷ []), space, h.room);
          rest =
              ap (λ l. l ++ rest) has
              ∙ append_assoc (held p.reader.rx) (m ∷ []) rest
              ∙ ap (λ l. held p.reader.rx ++ l) (sym first)
              ∙ h.rest;
        }

    at_idle : held p.reader.rx ≡ [] → Round p ls
    at_idle none_held =
        let (r, reader) = source-idle Q p.reader h.not_ended none_held in
        let (_, left, size) = Q.recv_empty p.reader.rx none_held in
        let left' = ap (λ (s : SimpleLogSource Chan). held s.rx) reader ∙ left in
        Round.idle none_held r
          (record {
            reads = refl;
            not_ended = ap (λ (s : SimpleLogSource Chan). s.ended) reader;
            room = ap (λ (s : SimpleLogSource Chan). capacity s.rx) reader ∙ size ∙ h.room;
            bounded = omega (arith, ap length left');
            rest = ap (λ l. l ++ p.pending) (left' ∙ sym none_held) ∙ h.rest;
          })
          left'

    at_next :
        (logs : Logs) (ms : List PartialLogStream) (later : List Logs)
        → held p.reader.rx ≡ next logs ∷ ms
        → ls ≡ logs ∷ later
        → ms ++ p.pending ≡ closed later
        → Round p ls
    at_next logs ms later first these others =
        let (r, reader) = source-took Q p.reader h.not_ended logs ms first in
        let (_, left, size) = Q.recv_message p.reader.rx (next logs) ms first in
        let left' = ap (λ (s : SimpleLogSource Chan). held s.rx) reader ∙ left in
        Round.took logs later these r
          (record {
            reads = refl;
            not_ended = ap (λ (s : SimpleLogSource Chan). s.ended) reader;
            room = ap (λ (s : SimpleLogSource Chan). capacity s.rx) reader ∙ size ∙ h.room;
            bounded = omega (arith, ap length left', ap length first, h.bounded);
            rest = ap (λ l. l ++ p.pending) left' ∙ others;
          })
          (omega (arith, ap length left', ap length first))

    at_end :
        (ms : List PartialLogStream)
        → held p.reader.rx ≡ end ∷ ms
        → ls ≡ []
        → ms ++ p.pending ≡ []
        → Round p ls
    at_end ms first these others =
        let (r, rx) = source-last Q p.reader h.not_ended ms first in
        let (_, left, _) = Q.recv_message p.reader.rx end ms first in
        Round.last these r
          (record {
            done = refl;
            all_sent = append_right-nil ms p.pending others;
            all_read = these;
          })
          (omega (arith, ap length (ap held rx ∙ left), ap length first))

    pub round-cases : Round p ls
    round-cases = by_held (held p.reader.rx) refl
      where
        by_rest :
            (m : PartialLogStream) (ms : List PartialLogStream) (l : List Logs)
            → held p.reader.rx ≡ m ∷ ms
            → ls ≡ l
            → m ∷ (ms ++ p.pending) ≡ closed l
            → Round p ls
        by_rest end ms [] first these e = at_end ms first these (cons-tail e)
        by_rest end ms (logs ∷ later) first these e = absurd (cc)
        by_rest (next ms') ms [] first these e = absurd (cc)
        by_rest (next logs) ms (logs' ∷ later) first these e =
            at_next logs ms later first (these ∙ ap (λ x. x ∷ later) (sym (next-logs e)))
              (cons-tail e)

        by_held : (hs : List PartialLogStream) → held p.reader.rx ≡ hs → Round p ls
        by_held [] first = at_idle first
        by_held (m ∷ ms) first =
            by_rest m ms ls first refl (ap (λ l. l ++ p.pending) (sym first) ∙ h.rest)

pub closed-not_nil : (ls : List Logs) → closed ls ≢ []
closed-not_nil [] h = absurd (cc)
closed-not_nil (logs ∷ ls) h = absurd (cc)
