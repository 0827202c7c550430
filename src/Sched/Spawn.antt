-- ===== src/Sched/Spawn.antt =====
-- `spawnChildren` of hw2/Scheduler_VM/cpu.c: which threads it forks, and what stays to be forked.
use uth_operating_systems.Base.{ℕ, ◌+◌, ◌≡◌, List, [], ◌∷◌, ◌++◌, length, if◌then◌else◌}
use uth_operating_systems.Links.{Ptr}
use uth_operating_systems.Sched.{Double, Vm}
use uth_operating_systems.Sched.Runqueue.{IsRunqueue}
use uth_operating_systems.Sched.Tasks.{due}

module _ {F : Double} where
  -- The threads whose spawn time has not come.
  abbrev pub later : Vm F → List Ptr → List Ptr
  later s [] = []
  later s (c ∷ cs) = if due s c then later s cs else c ∷ later s cs

  -- After a loop over `n` threads that leaves `remaining` to be forked: those that were due have tasks, which
  -- stand before the runqueue `xs`.
  pub record Spawned (owner : Ptr) (remaining : List Ptr) (n not_due : ℕ) (xs : List Ptr) (s : Vm F)
      : Type 0 where
    pub left : s.to_spawn owner ≡ remaining
    pub tasks : List Ptr
    pub counted : length tasks + not_due ≡ n
    pub queue : IsRunqueue s (tasks ++ xs)
