-- ===== src/Main/Layout.antt =====
-- Where `__init_sched` of hw2/Scheduler_VM/cpu.c puts the tasks of init and idle and their threads:
-- of six addresses, two are of threads that `createTask` allocates and nothing points to.
use uth_operating_systems.Base.{◌+◌, ◌≡◌, refl, [], ◌&&◌, ◌||◌, arith, leb, ltb}
use uth_operating_systems.Links.{Ptr, null}
use uth_operating_systems.Sched.{Double, Vm}
use uth_operating_systems.Sched.Tasks.{init_sched, new_task, create_task, create_info, alloc}
use uth_operating_systems.Sched.Schedule.{initschedule}

pub record Layout {F : Double} (p : Ptr) (before s : Vm F) : Type 0 where
  pub init : s.init ≡ p
  pub idle : s.idle ≡ p + 3
  pub init_thread : (s.task p).thread_info ≡ p + 2
  pub idle_thread : (s.task (p + 3)).thread_info ≡ p + 5
  pub children : s.to_spawn (p + 2) ≡ []
  pub parent : (s.info (p + 2)).parent ≡ null
  pub fresh : s.fresh ≡ p + 6
  pub live : (x : Ptr) → s.live x ≡ (before.live x || leb p x && ltb x (p + 6))

module _ {F : Double} where
  pub init_sched-Layout : (s : Vm F) → Layout s.fresh s (init_sched s)
  unfolding init_sched new_task create_task create_info alloc initschedule
  init_sched-Layout s = record {
    init = refl;
    idle = omega arith;
    init_thread = ground arith;
    idle_thread = ground arith;
    children = ground arith;
    parent = ground arith;
    fresh = omega arith;
    live = λ x. ground arith;
  }
