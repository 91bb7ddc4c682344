-- ===== src/Controller/Pipes/Assigned.antt =====
-- The runs of a job by their places among the assignments that `apply_plan` makes of its plan.
use that_goes_there.Prelude.{
  ℕ, zero, suc, ◌<◌, String, ◌≡◌, refl, sym, arith, subst, List, [], ◌∷◌, map, length, All,
  All-append, some, none,
}
use that_goes_there.Outcome.{ok}
use that_goes_there.Plan.Task.{PlannedTask, Plan}
use that_goes_there.Plan.Host.{HostConfig, get}
use that_goes_there.Plan.ForHost.{plan_for_host}
use that_goes_there.Controller.Prepare.{Assignment, prepare}
use that_goes_there.Controller.Prepare.Assignments.{
  share, member_shares, group_shares, share_of, prepare-shares,
}

-- Each share is the part of the plan for its host.
member_shares-parts :
    (plan : Plan) (hosts : HostConfig) (members : List String)
    → All (λ s. s.1 ≡ plan_for_host plan s.0 hosts) (member_shares plan hosts members)
member_shares-parts plan hosts [] = tt
member_shares-parts plan hosts (h ∷ hs) =
    All-append _ (share plan hosts h (plan_for_host plan h hosts).blueprint) _
      (own (plan_for_host plan h hosts).blueprint) (member_shares-parts plan hosts hs)
  where
    own :
        (ts : List PlannedTask)
        → All (λ s. s.1 ≡ plan_for_host plan s.0 hosts) (share plan hosts h ts)
    own [] = tt
    own (t ∷ ts) = (refl, tt)

pub group_shares-parts :
    (plan : Plan) (hosts : HostConfig) (groups : List (String × List String))
    → All (λ s. s.1 ≡ plan_for_host plan s.0 hosts) (group_shares plan hosts groups)
group_shares-parts plan hosts [] = tt
group_shares-parts plan hosts ((g, ms) ∷ gs) =
    All-append _ (member_shares plan hosts ms) (group_shares plan hosts gs)
      (member_shares-parts plan hosts ms) (group_shares-parts plan hosts gs)

All-of_map :
    {A B : Type 0} (P : B → Type 0) (f : A → B) (xs : List A)
    → All P (map f xs)
    → All (λ x. P (f x)) xs
All-of_map P f [] h = tt
All-of_map P f (x ∷ xs) h = (h.0, All-of_map P f xs h.1)

abbrev unassigned : Assignment
unassigned = record {
  plan = record { name = ""; blueprint = [] };
  hostname = "";
  host = record { host = ""; port = 0; executor = ""; remote_user = none };
}

-- The assignment at a place; behind the last one there is none.
abbrev pub pick : List Assignment → ℕ → Assignment
pick [] i = unassigned
pick (a ∷ fs) zero = a
pick (a ∷ fs) (suc i) = pick fs i

pub pick-All :
    (P : Assignment → Type 0) (fs : List Assignment) (i : ℕ)
    → All P fs
    → i < length fs
    → P (pick fs i)
pick-All P [] i h below = absurd (omega arith)
pick-All P (a ∷ fs) zero h below = h.0
pick-All P (a ∷ fs) (suc i) h below = pick-All P fs i h.1 (omega arith)

-- Each run applies the part of the plan for its host, which the host map has.
pub assigned-part :
    (plan : Plan) (hosts : HostConfig) (fs : List Assignment) (i : ℕ)
    → prepare plan hosts ≡ ok fs
    → i < length fs
    → let a = pick fs i in
      (a.plan ≡ plan_for_host plan a.hostname hosts) × (get hosts.hosts a.hostname ≡ some a.host)
assigned-part plan hosts fs i prepared below =
    let (shares, found) = prepare-shares plan hosts fs prepared in
    (
      pick-All _ fs i
          (All-of_map (λ s. s.1 ≡ plan_for_host plan s.0 hosts) share_of fs
            (subst (All (λ s. s.1 ≡ plan_for_host plan s.0 hosts)) (sym shares)
              (group_shares-parts plan hosts hosts.groups)))
          below,
      pick-All _ fs i found below,
    )
