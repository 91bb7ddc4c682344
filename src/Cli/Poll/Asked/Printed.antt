-- ===== src/Cli/Poll/Asked/Printed.antt =====
-- A client that asks the controller for a job until it ends: what the handlers and the reading tasks
-- did to the store is what the client prints.
use mathlib.Core.List.{append_assoc}
use that_goes_there.Prelude.{
  String, ◌≡◌, ◌≢◌, ◌⊎◌, inl, inr, refl, sym, ap, ap₂, subst, ◌∙◌, Option, none, some, List, [],
  ◌∷◌, ◌++◌, map, All, All-split,
}
use that_goes_there.Outcome.{Outcome, ok}
use that_goes_there.Ipc.{JobStartRequest, JobState, running}
use that_goes_there.Controller.Cache.{Cache}
use that_goes_there.Controller.Apply.Entries.{entries, entry, logs_for, deliver_all-entries}
use that_goes_there.Controller.Server.{initial_state, run_plan, finish_job}
use that_goes_there.Controller.Server.History.{
  Event, finish, ended_by, run_job, run_store, Tracks, run_store-Tracks,
}
use that_goes_there.Controller.Server.History.Outcomes.{
  IsBetween, ended_by-kept, ended_by-status, run_job-append, run_job-own, run_store-append,
  deliveries, run_job-deliveries,
}
use that_goes_there.Controller.Server.Jobs.{final_status}
use that_goes_there.Cli.Poll.{Printed, poll_loop}
use that_goes_there.Cli.Poll.Job.{last_line, poll_loop-shows, Grows, reached}
use that_goes_there.Cli.Poll.Followed.{
  advance, at_end, flatten, advance-running, at_end-flatten, at_end-running, at_end-IsMap,
  deliver_all-IsMap,
}
use that_goes_there.Cli.Poll.Shown.{shown_for, IsMap}
use that_goes_there.Cli.Poll.Asked.{JobCodec, ask, asked, IsPresent, ask-stored}

module _ (K : JobCodec) (J : Cache) (job_id : String) where
  module _ (host : String) where
    -- The answers show the job at the looks.
    record Answers (segs : List (List Event)) (jobs : J.Jobs) (job : JobState) : Type 0 where
      states : List JobState
      answers : asked K J job_id segs jobs ≡ map ok states
      grows : Grows host (entries host job.logs) states
      last :
          reached host (entries host job.logs) states
          ≡ entries host (at_end job_id segs [] job).logs
      kept :
          Tracks J job_id
            (run_store J (flatten job_id segs []) jobs)
            (some (at_end job_id segs [] job))

    asked-Answers :
        (segs : List (List Event)) (jobs : J.Jobs) (job : JobState)
        → Tracks J job_id jobs (some job)
        → IsMap job.logs
        → job.status ≡ running
        → All (All (IsBetween job_id)) segs
        → IsPresent K J job_id segs jobs
        → Answers segs jobs job
    unfolding asked run_store
    asked-Answers [] jobs job there m h b p = record {
      states = [];
      answers = refl;
      grows = tt;
      last = refl;
      kept = there;
    }
    asked-Answers (seg ∷ segs) jobs job there m h b p =
        let now =
          subst (Tracks J job_id (run_store J seg jobs)) (run_job-deliveries job_id seg job b.0)
            (run_store-Tracks J job_id seg jobs (some job) there) in
        let m' = deliver_all-IsMap (deliveries job_id seg) job m in
        let h' = advance-running job_id seg job h in
        let rest =
          asked-Answers segs (run_store J seg jobs) (advance job_id seg job) now m' h' b.1 p.1 in
        let (after, answered, same) =
          ask-stored K J job_id (advance job_id seg job) (run_store J seg jobs)
            (elim now [ inl e ↦ e | inr gone ↦ absurd (p.0 gone) ]) in
        record {
          states = after ∷ rest.states;
          answers = ap₂ (λ a l. a ∷ l) answered rest.answers;
          grows = (
            (
              same.is_map m',
              same.status ∙ h',
              (_, same.logs host ∙ (deliver_all-entries host (deliveries job_id seg) job).0),
            ),
            subst (λ l. Grows host l rest.states) (sym (same.logs host)) rest.grows,
          );
          last = ap (λ l. reached host l rest.states) (same.logs host) ∙ rest.last;
          kept =
              subst
                (λ js. Tracks J job_id js (some (at_end job_id segs [] (advance job_id seg job))))
                (sym (run_store-append J seg (flatten job_id segs []) jobs)) rest.kept;
        }

    abbrev begun : JobStartRequest → J.Jobs → J.Jobs
    begun body jobs = (run_plan J job_id body jobs).1

    started-Tracks :
        (body : JobStartRequest) (jobs : J.Jobs)
        → Tracks J job_id (begun body jobs) (some (initial_state body))
    unfolding run_plan
    started-Tracks body jobs = J.get-insert_self job_id (initial_state body) jobs

    -- The job at its end.
    end-Tracks :
        (final : List Event) (r : Outcome (Unit {0})) (jobs : J.Jobs) (job : JobState)
        → All (IsBetween job_id) final
        → Tracks J job_id jobs (some job)
        → Tracks J job_id
            (finish_job J job_id r (run_store J final jobs))
            (some (ended_by r (advance job_id final job)))
    unfolding run_store run_job
    end-Tracks final r jobs job between there =
        let ended =
          run_store-Tracks J job_id (final ++ finish job_id r ∷ []) jobs (some job) there in
        subst (Tracks J job_id (finish_job J job_id r (run_store J final jobs)))
          (run_job-append job_id final (finish job_id r ∷ []) (some job)
            ∙ ap (run_job job_id (finish job_id r ∷ []))
                (run_job-deliveries job_id final job between)
            ∙ run_job-own job_id (finish job_id r) [] (some (advance job_id final job)) refl)
          (subst
            (λ js. Tracks J job_id js (run_job job_id (final ++ finish job_id r ∷ []) (some job)))
            (run_store-append J final (finish job_id r ∷ []) jobs) ended)

    at_end-final :
        (segs : List (List Event)) (final : List Event) (job : JobState)
        → at_end job_id segs final job ≡ advance job_id final (at_end job_id segs [] job)
    at_end-final [] final job = refl
    at_end-final (seg ∷ segs) final job = at_end-final segs final (advance job_id seg job)

    flatten-append :
        (segs : List (List Event)) (final : List Event)
        → flatten job_id segs final ≡ flatten job_id segs [] ++ final
    flatten-append [] final = refl
    flatten-append (seg ∷ segs) final =
        ap (λ l. seg ++ l) (flatten-append segs final)
        ∙ sym (append_assoc seg (flatten job_id segs []) final)

    flatten-All :
        (P : Event → Type 0) (segs : List (List Event)) (final : List Event)
        → All P (flatten job_id segs final)
        → All (All P) segs × All P final
    flatten-All P [] final h = (tt, h)
    flatten-All P (seg ∷ segs) final h =
        let (now, later) = All-split P seg (flatten job_id segs final) h in
        let (segs', final') = flatten-All P segs final later in ((now, segs'), final')

    -- The store behind the end of the job, with these events before.
    abbrev pub last_store : JobStartRequest → List Event → Outcome (Unit {0}) → J.Jobs → J.Jobs
    last_store body es r jobs = finish_job J job_id r (run_store J es (begun body jobs))

    pub asked_job-printed :
        (body : JobStartRequest) (segs : List (List Event)) (final : List Event)
        (r : Outcome (Unit {0})) (rest : List (Outcome JobState)) (jobs : J.Jobs)
        → All (IsBetween job_id) (flatten job_id segs final)
        → IsPresent K J job_id segs (begun body jobs)
        → J.get job_id (last_store body (flatten job_id segs final) r jobs) ≢ none
        → final_status r ≢ running
        → (out : List Printed) × (poll_loop
              (asked K J job_id segs (begun body jobs)
                ++ ask K J job_id (last_store body (flatten job_id segs final) r jobs) ∷ rest)
              []
            ≡ some (ok tt, out ++ last_line (final_status r)))
          × (shown_for host out
              ≡ map (entry host) (logs_for host (deliveries job_id (flatten job_id segs final))))
    unfolding initial_state
    asked_job-printed body segs final r rest jobs between present kept over =
        let begin = initial_state body in
        let (b, bf) = flatten-All (IsBetween job_id) segs final between in
        let a =
          asked-Answers segs (begun body jobs) begin (started-Tracks body jobs) tt refl b present in
        let seen = at_end job_id segs [] begin in
        let js = run_store J (flatten job_id segs []) (begun body jobs) in
        let store_same =
          ap (λ l. last_store body l r jobs) (flatten-append segs final)
          ∙ ap (finish_job J job_id r)
              (run_store-append J (flatten job_id segs []) final (begun body jobs)) in
        let final_job = advance job_id final seen in
        let (after, answered, same) =
          ask-stored K J job_id (ended_by r final_job)
            (last_store body (flatten job_id segs final) r jobs)
            (ap (J.get job_id) store_same
              ∙ found (end-Tracks final r js seen bf a.kept)
                  (λ e. kept (ap (J.get job_id) store_same ∙ e))) in
        let status =
          ended_by-status job_id r final_job
            (advance-running job_id final seen (at_end-running job_id segs [] begin refl)) in
        let logs = (ended_by-kept job_id r final_job).0 in
        let whole = same.logs host ∙ ap (entries host) logs in
        let (out, result, complete) =
          poll_loop-shows host a.states _ after rest a.grows
            (λ e. over (sym status ∙ sym same.status ∙ e))
            (same.is_map (
              subst IsMap (sym logs) (
                deliver_all-IsMap (deliveries job_id final) seen
                  (at_end-IsMap job_id segs [] begin tt))))
            (whole
              ∙ (deliver_all-entries host (deliveries job_id final) seen).0
              ∙ ap (λ l. l ++ map (entry host) (logs_for host (deliveries job_id final)))
                  (sym a.last)) in
        (
          out,
          ap₂ (λ l x. poll_loop (l ++ x ∷ rest) []) a.answers answered
              ∙ result
              ∙ ap (λ s. some (ok tt, out ++ last_line s)) (same.status ∙ status),
          complete
              ∙ whole
              ∙ ap (λ (j : JobState). entries host j.logs)
                  (sym (at_end-final segs final begin) ∙ at_end-flatten job_id segs final begin)
              ∙ (deliver_all-entries host (deliveries job_id (flatten job_id segs final)) begin).0,
        )
      where
        found : {o p : Option JobState} → (o ≡ p) ⊎ (o ≡ none) → o ≢ none → o ≡ p
        found (inl e) h = e
        found (inr gone) h = absurd (h gone)
