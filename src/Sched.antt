-- ===== src/Sched.antt =====
-- The scheduler virtual machine of hw2/Scheduler_VM: `struct task_struct` and `struct runqueue`
-- (schedule.h), `struct thread_info` (privatestructs.h), the globals of cpu.c and schedule.c, and
-- the clock. The scheduler computes with `double`s, which are a parameter.
pub mod Sjf
pub mod Schedule
pub mod Runqueue
pub mod Choice
pub mod Decision
pub mod Tasks
pub mod Cpu
pub mod Lifecycle
pub mod Spawn
use uth_operating_systems.Base.{
  ℕ, ◌+◌, ◌-◌, ◌*◌, ◌/◌, ◌%◌, ◌^◌, ◌≡◌, Bool, true, false, List, ℤ, pos, negsuc, ◌==◌,
  if◌then◌else◌, update,
}
use uth_operating_systems.Links.{Ptr, Links}

-- The operations of `double` that the scheduler uses: `of_ull` converts an unsigned long long,
-- `one` is 1, `factor` is FACTOR, 0.5, and `lt` is `<`.
pub record Double : Type 1 where
  pub D : Type 0
  pub of_ull : ℕ → D
  pub one : D
  pub factor : D
  pub add : D → D → D
  pub sub : D → D → D
  pub mul : D → D → D
  pub div : D → D → D
  pub lt : D → D → Bool

-- `<` on floating point numbers, NaN among them, is a strict order.
pub record IsOrder (F : Double) : Type 0 where
  pub irrefl : (x : F.D) → F.lt x x ≡ false
  pub trans : (x y z : F.D) → F.lt x y ≡ true → F.lt y z ≡ true → F.lt x z ≡ true

-- `thread_type`: INIT, INTERACTIVE, NONINTERACTIVE, and the -1 of `createInfo`.
pub data ThreadType : Type 0 where
  init_thread interactive noninteractive untyped : ThreadType

abbrev pub is_interactive : ThreadType → Bool
is_interactive interactive = true
is_interactive _ = false

-- `struct thread_info`. The names, `niceValue` and `type_struct` play no part.
pub record Info : Type 0 where
  pub id : ℤ
  pub spawn_time : ℤ
  pub kill_time : ℤ
  pub spawns : Bool
  pub children : ℤ
  pub kill : Bool
  pub work_duration : ℤ
  pub thread_type : ThreadType
  pub parent : Ptr

-- `struct task_struct`, less its `prev` and `next`, which are links. `sleep_type` is not used.
pub record Task (F : Double) : Type 0 where
  pub thread_info : Ptr
  pub time_slice : ℕ
  pub need_reschedule : Bool
  pub burst : F.D
  pub exp_burst : F.D
  pub goodness : F.D
  pub waiting_in_rq : F.D
  pub process_start_time : F.D

-- The memory and the globals. `links` are the `prev` and `next` of the tasks, `head` and
-- `nr_running` the fields of `*rq`; `rand` is the stream that `rand()` returns, of which `draws`
-- values have been taken; `waiting` lists the tasks on `intwaitlist`; `to_spawn` lists, for each
-- thread, the threads on its `list`; `fresh` is the next address that `malloc` returns, and `live`
-- says of an address whether it has been allocated and not been freed.
pub record Vm (F : Double) : Type 0 where
  pub links : Links
  pub task : Ptr → Task F
  pub info : Ptr → Info
  pub head : Ptr
  pub nr_running : ℕ
  pub current : Ptr
  pub idle : Ptr
  pub init : Ptr
  pub jiffies : ℕ
  pub clocktick : ℕ
  pub timer : ℕ
  pub int_timer : ℤ
  pub int_wait_timer : ℤ
  pub endtime : ℕ
  pub process_id : ℕ
  pub rand : ℕ → ℕ
  pub draws : ℕ
  pub waiting : List Ptr
  pub to_spawn : Ptr → List Ptr
  pub fresh : Ptr
  pub live : Ptr → Bool

-- `MS_TO_TICKS` at CLOCK_HZ 500000: 500 clock ticks to a millisecond.
abbrev pub ms_to_ticks : ℕ → ℕ
ms_to_ticks ms = 500 * ms

module _ {F : Double} where
  -- A write to the fields of a task, and to those of a thread.
  abbrev pub set_task : Ptr → Task F → Vm F → Vm F
  set_task p t s = record s { task = update s.task p t }

  abbrev pub set_info : Ptr → Info → Vm F → Vm F
  set_info p i s = record s { info = update s.info p i }

  -- `current->thread_info` and the like.
  abbrev pub info_of : Vm F → Ptr → Info
  info_of s p = s.info (s.task p).thread_info

  -- `sched_clock`, by `JIFFIES_TO_NS`: a jiffy is 1000000000 / HZ nanoseconds, HZ is 100.
  unfoldable pub sched_clock : Vm F → ℕ
  sched_clock s = s.jiffies * 10000000 % 2 ^ 64

  -- `context_switch`: an interactive task draws the time after which it will sleep.
  unfoldable pub context_switch : Ptr → Vm F → Vm F
  context_switch next s =
      let sleeps = is_interactive (info_of s next).thread_type in
      let span = (s.task next).time_slice * 100 % 2 ^ 32 / 1000 + 100 in
      record s {
        current = next;
        int_wait_timer =
            if sleeps then pos (ms_to_ticks (s.rand s.draws % span + 5)) else s.int_wait_timer;
        draws = if sleeps then s.draws + 1 else s.draws;
      }
