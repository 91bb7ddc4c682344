-- ===== src/Controller/Pipes/Seen.antt =====
-- What is seen of a job whose runs go on side by side, and at its end.
use mathlib.Core.List.{append-nil}
use that_goes_there.Prelude.{
  ℕ, ◌<◌, String, ◌≡◌, inl, inr, refl, sym, ap, ◌∙◌, false, none, some, List, [], ◌∷◌, ◌++◌, map,
}
use that_goes_there.Outcome.{Outcome}
use that_goes_there.Ipc.{JobStartRequest, JobState, running}
use that_goes_there.Executor.Stream.{Logs, PartialLogStream}
use that_goes_there.Executor.Source.Loop.{delivered}
use that_goes_there.Executor.Mpsc.{Mpsc}
use that_goes_there.Controller.Cache.{Cache}
use that_goes_there.Controller.Apply.Entries.{entries, entry, deliver_all-entries}
use that_goes_there.Controller.Server.{initial_state, run_plan, finish_job}
use that_goes_there.Controller.Server.Jobs.{final_status}
use that_goes_there.Controller.Server.History.{Event, start, finish, run_store, run_store-refines}
use that_goes_there.Controller.Server.History.Outcomes.{
  run_store-append, deliveries, run_job-deliveries, run_job-own, ended_job-seen, some-injective,
}
use that_goes_there.Controller.Server.Whole.{all_of}
use that_goes_there.Controller.Pipes.{System, started, Reach}
use that_goes_there.Controller.Pipes.Rest.{closed}
use that_goes_there.Controller.Pipes.Came.{came}
use that_goes_there.Controller.Pipes.Kept.{IsAlone, Kept, Reach-Kept}

module _ (Q : Mpsc) (J : Cache) (job_id : String) (hostname : ℕ → String) (n : ℕ)
    (messages : ℕ → List PartialLogStream)
    (ended : (i : ℕ) → i < n → messages i ≡ closed (delivered (messages i))) where
  -- A run whose reading task has ended has brought all its logs, where no other run has its host.
  pub done-came :
      (jobs : J.Jobs) (es : List Event) (s : System Q J) (i : ℕ)
      → Kept Q J job_id hostname n (λ k. delivered (messages k)) jobs es s
      → i < n
      → IsAlone hostname n i
      → (s.pipe i).reading ≡ false
      → came job_id (hostname i) es ≡ all_of (delivered (messages i))
  done-came jobs es s i h below alone quiet =
      let (later, rest, all) = h.coming i below in
      elim rest [
        | inl opened ↦ absurd (cc (opened.reads))
        | inr shut ↦
            sym (append-nil (came job_id (hostname i) es))
            ∙ ap (λ l. came job_id (hostname i) es ++ all_of l) (sym shut.all_read)
            ∙ all alone
      ]

  -- The runs of a job that is started on a store without it.
  pub ended_run-seen :
      (body : JobStartRequest) (jobs : J.Jobs) (es : List Event) (s : System Q J)
      (r : Outcome (Unit {0})) (job : JobState) (i : ℕ)
      → J.get job_id jobs ≡ none
      → Reach Q J job_id hostname n
          (started Q J job_id hostname messages (run_plan J job_id body jobs).1)
          es
          s
      → i < n
      → IsAlone hostname n i
      → (s.pipe i).reading ≡ false
      → J.get job_id (finish_job J job_id r s.jobs) ≡ some job
      → (job.status ≡ final_status r)
        × (entries (hostname i) job.logs
            ≡ map (entry (hostname i)) (all_of (delivered (messages i))))
  unfolding run_store
  ended_run-seen body jobs es s r job i absent reached below alone quiet there =
      let begun = (run_plan J job_id body jobs).1 in
      let h =
        Reach-Kept Q J job_id hostname n (λ k. delivered (messages k)) begun messages ended
          reached in
      let (status, logs) =
        ended_job-seen job_id J [] body es r [] jobs job (hostname i) tt h.between tt absent (
          ap (J.get job_id) (run_store-append J es (finish job_id r ∷ []) begun)
          ∙ ap (λ js. J.get job_id (finish_job J job_id r js)) (sym h.store)
          ∙ there) in
      (
        status,
        logs
            ∙ ap (map (entry (hostname i))) (
                append-nil (came job_id (hostname i) es)
                ∙ done-came begun es s i h below alone quiet),
      )

  -- While the job is in the store, its entries for a host are those of the messages so far.
  pub running_run-seen :
      (body : JobStartRequest) (jobs : J.Jobs) (es : List Event) (s : System Q J) (job : JobState)
      (i : ℕ)
      → J.get job_id jobs ≡ none
      → Reach Q J job_id hostname n
          (started Q J job_id hostname messages (run_plan J job_id body jobs).1)
          es
          s
      → i < n
      → IsAlone hostname n i
      → J.get job_id s.jobs ≡ some job
      → (job.status ≡ running)
        × (seen : Logs) × (unseen : Logs) × (all_of (delivered (messages i)) ≡ seen ++ unseen)
        × (entries (hostname i) job.logs ≡ map (entry (hostname i)) seen)
  unfolding run_store initial_state
  running_run-seen body jobs es s job i absent reached below alone there =
      let begun = (run_plan J job_id body jobs).1 in
      let h =
        Reach-Kept Q J job_id hostname n (λ k. delivered (messages k)) begun messages ended
          reached in
      let (later, rest, all) = h.coming i below in
      let whole =
        sym (run_job-deliveries job_id es (initial_state body) h.between)
        ∙ sym (run_job-own job_id (start job_id body) es none refl)
        ∙ run_store-refines J job_id (start job_id body ∷ es) jobs job absent
            (ap (J.get job_id) (sym h.store) ∙ there) in
      let (logs, same) =
        deliver_all-entries (hostname i) (deliveries job_id es) (initial_state body) in
      let job_is = some-injective whole in
      (
        ap (λ (j : JobState). j.status) (sym job_is) ∙ ap (λ (j : JobState). j.status) same,
        came job_id (hostname i) es,
        all_of later,
        sym (all alone),
        ap (λ (j : JobState). entries (hostname i) j.logs) (sym job_is) ∙ logs,
      )
