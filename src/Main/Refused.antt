-- ===== src/Main/Refused.antt =====
-- `main` of hw2/Scheduler_VM/cpu.c when `readProfile` refuses the profile: what was allocated is
-- freed.
use uth_operating_systems.Base.{
  ◌+◌, ◌≡◌, Bool, true, [], ◌∷◌, ◌&&◌, ◌||◌, ◌==◌, leb, ltb, has, ◌∉◌, Distinct, if◌then◌else◌,
}
use uth_operating_systems.Links.{Ptr, null}
use uth_operating_systems.Sched.{Double, Vm}
use uth_operating_systems.Profile.Commands.{Profile}
use uth_operating_systems.Main.Forest.{Forest, members}
use uth_operating_systems.Main.Cleanup.{Planted}
use uth_operating_systems.Main.Nursery.{Nursery}
use uth_operating_systems.Main.Layout.{Layout}

module _ {F : Double} where
  -- The tasks of init and idle and their threads, apart from each other and from the forest `f`
  -- below the thread of init.
  record Made (f : Forest) (top i e d : Ptr) (s : Vm F) : Type 0 where
    forest : Planted top f s
    init : s.init ≡ i
    idle : s.idle ≡ d
    init_thread : (s.task i).thread_info ≡ top
    idle_thread : (s.task d).thread_info ≡ e
    distinct : Distinct (top ∷ i ∷ e ∷ d ∷ members f)
    not_null : null ∉ (top ∷ i ∷ e ∷ d ∷ [])
    live : (x : Ptr) → has x (top ∷ i ∷ e ∷ d ∷ []) ≡ true → s.live x ≡ true

  -- The memory behind a refused profile, of which the addresses from `p` to below `n` were
  -- allocated: two threads of `createTask` are left of them.
  abbrev pub left_over : (p n : Ptr) → Vm F → Ptr → Bool
  left_over p n s x = if leb p x && ltb x n then x == p + 1 || x == p + 4 else s.live x
