-- ===== src/Plan/ForHost/Targets.antt =====
-- Which tasks `plan_for_host` keeps.
use mathlib.Core.List.{Memᴰ}
use that_goes_there.Prelude.{
  String, ◌≡◌, ◌↔◌, inl, inr, ap, subst, Bool, true, ◌||◌, arith, List, [], ◌∷◌, Memᴰ-cons, ◌⊎◌,
  any-Memᴰ, any-of-Memᴰ, contains, contains-Memᴰ, contains-of-Memᴰ, Bool-cases,
}
use that_goes_there.Plan.Task.{PlannedTask}
use that_goes_there.Plan.Host.{HostConfig}
use that_goes_there.Plan.ForHost.{group_names, applies}

-- The task names the host, or a group that holds the host.
pub data Targets (hosts : HostConfig) (host : String) (t : PlannedTask) : Type 0 where
  by_name : Memᴰ host t.hosts → Targets hosts host t
  by_group :
      (name : String) (members : List String)
      → Memᴰ (name, members) hosts.groups
      → Memᴰ host members
      → Memᴰ name t.hosts
      → Targets hosts host t

-- A group of that name that holds the host.
abbrev pub Holds : List (String × List String) → String → String → Type 0
Holds gs host name = (members : List String) × Memᴰ (name, members) gs × Memᴰ host members

Holds-cons :
    {gs : List (String × List String)} {host name : String} (g : String × List String)
    → Holds gs host name
    → Holds (g ∷ gs) host name
Holds-cons g (members, m, h) = (members, Memᴰ.tail m, h)

group_names-Holds :
    (gs : List (String × List String)) (host name : String)
    → Memᴰ name (group_names gs host)
    → Holds gs host name
unfolding group_names
group_names-Holds [] host name m = elim m [ ]
group_names-Holds ((n, hs) ∷ gs) host name m = elim (Bool-cases (contains hs host)) [
  | inl e ↦ elim (Memᴰ-cons (rw e at m)) [
    | inl k ↦ (hs, Memᴰ.head (ap (λ x. (x, hs)) k), contains-Memᴰ hs host e)
    | inr r ↦ Holds-cons (n, hs) (group_names-Holds gs host name r)
  ]
  | inr e ↦ Holds-cons (n, hs) (group_names-Holds gs host name (rw e at m))
]

Memᴰ-group_names :
    (gs : List (String × List String)) (host name : String) {members : List String}
    → Memᴰ (name, members) gs
    → Memᴰ host members
    → Memᴰ name (group_names gs host)
unfolding group_names
Memᴰ-group_names [] host name m h = elim m [ ]
Memᴰ-group_names ((n, hs) ∷ gs) host name (Memᴰ.head e) h =
    rw (contains-of-Memᴰ hs host (subst (Memᴰ host) (ap (λ g. g.1) e) h))
      (Memᴰ.head (ap (λ g. g.0) e))
Memᴰ-group_names ((n, hs) ∷ gs) host name (Memᴰ.tail m) h = elim (Bool-cases (contains hs host)) [
  | inl e ↦ rw e (Memᴰ.tail (Memᴰ-group_names gs host name m h))
  | inr e ↦ rw e (Memᴰ-group_names gs host name m h)
]

||-cases : (a b : Bool) → (a || b) ≡ true → (a ≡ true) ⊎ (b ≡ true)
||-cases a b h = ground arith

-- The test that `plan_for_host` makes of a task holds exactly when the task names the host, or a
-- group that holds the host.
pub applies-iff-Targets :
    (hosts : HostConfig) (host : String) (t : PlannedTask)
    → (applies hosts host t ≡ true) ↔ Targets hosts host t
unfolding applies
applies-iff-Targets hosts host t = (to, of)
  where
    to : applies hosts host t ≡ true → Targets hosts host t
    to h = elim (||-cases _ _ h) [
      | inl e ↦ by_name (contains-Memᴰ t.hosts host e)
      | inr e ↦
          let (name, m, k) = any-Memᴰ (λ n. contains (group_names hosts.groups host) n) t.hosts e in
          let (members, g, h') =
            group_names-Holds hosts.groups host name (contains-Memᴰ _ name k) in
          by_group name members g h' m
    ]

    of : Targets hosts host t → applies hosts host t ≡ true
    of (by_name m) = rw (contains-of-Memᴰ t.hosts host m)
    of (by_group name members g h m) = ground (
      arith,
      any-of-Memᴰ (λ n. contains (group_names hosts.groups host) n) t.hosts m
          (contains-of-Memᴰ _ name (Memᴰ-group_names hosts.groups host name g h)),
    )
