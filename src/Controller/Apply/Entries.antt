-- ===== src/Controller/Apply/Entries.antt =====
-- The logs of a job, as the reading tasks of several hosts add to them.
use mathlib.Core.List.{append-nil, append_assoc, map-append}
use that_goes_there.Prelude.{
  String, ◌≡◌, inl, inr, subst, refl, sym, ap, ◌∙◌, List, [], ◌∷◌, ◌++◌, map, str_eq, eq_iff,
  eq_refl, false, Bool-cases, if◌then◌else◌,
}
use that_goes_there.Ipc.{JobState, LogEntry}
use that_goes_there.Executor.Stream.{Logs}
use that_goes_there.Controller.Apply.{append_entries, add_logs}

-- The entries of a host.
abbrev pub entries : String → List (String × List LogEntry) → List LogEntry
entries host [] = []
entries host ((h, old) ∷ rest) = if str_eq h host then old else entries host rest

abbrev pub entry : String → String → LogEntry
entry host log = record { hostname = host; log = log }

-- Logs as they come from the reading tasks, in any interleaving of the hosts.
abbrev pub deliver_all : List (String × Logs) → JobState → JobState
deliver_all [] job = job
deliver_all ((host, logs) ∷ ds) job = deliver_all ds (add_logs host logs job)

-- The logs that came for a host.
abbrev pub logs_for : String → List (String × Logs) → Logs
logs_for host [] = []
logs_for host ((h, logs) ∷ ds) =
    if str_eq h host then logs ++ logs_for host ds else logs_for host ds

entries-append_same :
    (host : String) (es : List LogEntry) (l : List (String × List LogEntry))
    → entries host (append_entries host es l) ≡ entries host l ++ es
unfolding append_entries
entries-append_same host es [] = rw (eq_refl host) refl
entries-append_same host es ((h, old) ∷ rest) = elim (Bool-cases (str_eq h host)) [
  | inl e ↦ rw e (rw e refl)
  | inr e ↦ rw e (rw e (entries-append_same host es rest))
]

entries-append_other :
    (host other : String) (es : List LogEntry) (l : List (String × List LogEntry))
    → str_eq host other ≡ false
    → entries other (append_entries host es l) ≡ entries other l
unfolding append_entries
entries-append_other host other es [] ne = rw ne refl
entries-append_other host other es ((h, old) ∷ rest) ne = elim (Bool-cases (str_eq h host)) [
  | inl e ↦ rw e (rw ((eq_iff h host).0 e, ne) refl)
  | inr e ↦
      rw e
        (ap (λ r. if str_eq h other then old else r) (entries-append_other host other es rest ne))
]

-- The first delivery, of the ones in `logs_for`.
entries-deliver :
    (host h : String) (logs : Logs) (ds : List (String × Logs)) (job : JobState)
    → entries host (add_logs h logs job).logs ++ map (entry host) (logs_for host ds)
      ≡ entries host job.logs ++ map (entry host) (logs_for host ((h, logs) ∷ ds))
unfolding add_logs
entries-deliver host h logs ds job = elim (Bool-cases (str_eq h host)) [
  | inl e ↦
      subst
        (λ k.
          entries host (append_entries k (map (entry k) logs) job.logs)
            ++ map (entry host) (logs_for host ds)
          ≡ entries host job.logs ++ map (entry host) (logs_for host ((k, logs) ∷ ds)))
        (sym ((eq_iff h host).0 e))
        (rw (entries-append_same host (map (entry host) logs) job.logs, eq_refl host)
          (append_assoc (entries host job.logs) (map (entry host) logs) _
            ∙ ap (λ r. entries host job.logs ++ r)
                (sym (map-append (entry host) logs (logs_for host ds)))))
  | inr e ↦ rw (entries-append_other h host (map (entry h) logs) job.logs e) (rw e refl)
]

-- Whatever the order in which the reading tasks of the hosts get to the job, each host's entries are
-- those it had and then all logs that came for it, in order, under its name; the plan, the hosts and
-- the status of the job are kept.
pub deliver_all-entries :
    (host : String) (ds : List (String × Logs)) (job : JobState)
    → (entries host (deliver_all ds job).logs
        ≡ entries host job.logs ++ map (entry host) (logs_for host ds))
      × (deliver_all ds job ≡ record job { logs = (deliver_all ds job).logs })
unfolding add_logs
deliver_all-entries host [] job = (sym (append-nil (entries host job.logs)), refl)
deliver_all-entries host ((h, logs) ∷ ds) job =
    let (now, kept) = deliver_all-entries host ds (add_logs h logs job) in
    (now ∙ entries-deliver host h logs ds job, kept)
