-- ===== src/Tests/Sched.antt =====
-- A machine with two tasks behind the head of its runqueue, for hw2.
use uth_operating_systems.Base.{
  ℕ, ◌+◌, ◌-◌, ◌*◌, ◌/◌, ◌≡◌, refl, true, false, [], ◌∷◌, arith, Returns, ◌==◌, ltb, if◌then◌else◌,
  pos, minus_one,
}
use uth_operating_systems.Links.{Ptr, null}
use uth_operating_systems.Sched.{Double, IsOrder, Task, Info, Vm, init_thread, interactive}
use uth_operating_systems.Sched.Schedule.{schedule, deactivate_task}
use uth_operating_systems.Sched.Runqueue.{IsRunqueue, deactivate_task-IsRunqueue}
use uth_operating_systems.Sched.Decision.{Chosen, Switched, schedule-Chosen}
use uth_operating_systems.Sched.Tasks.{must_end, task_end}
use uth_operating_systems.Sched.Cpu.{sleep, io_timer}
use uth_operating_systems.Sched.Lifecycle.{sleep-io_timer, task_end-leaves}

-- Halves in place of floating point: `n` stands for n / 2.
abbrev pub halves : Double
halves = record {
  D = ℕ;
  of_ull = λ n. 2 * n;
  one = 2;
  factor = 1;
  add = λ x y. x + y;
  sub = λ x y. x - y;
  mul = λ x y. x * y / 2;
  div = λ x y. 2 * x / y;
  lt = ltb;
}

halves-IsOrder : IsOrder halves
halves-IsOrder = record { irrefl = λ x. ground arith; trans = λ x y z h k. ground arith }

-- Task 1 is init, with the thread 11; 2 and 3 are on the runqueue and 4 waits.
abbrev pub task_at : Ptr → Task halves
task_at p = record {
  thread_info = p + 10;
  time_slice = 100;
  need_reschedule = false;
  burst = 0;
  exp_burst = p;
  goodness = p;
  waiting_in_rq = p;
  process_start_time = 0;
}

abbrev pub info_at : Ptr → Info
info_at p = record {
  id = pos p;
  spawn_time = if p == 21 then pos 9 else pos 0;
  kill_time = if p == 12 then pos 0 else minus_one;
  spawns = p == 11;
  children = if p == 11 then pos 3 else pos 0;
  kill = false;
  work_duration = minus_one;
  thread_type = if p == 11 then init_thread else interactive;
  parent = if p == 11 then null else 11;
}

-- Thread 11 is to spawn 20, which is due, and 21, which is not.
abbrev pub vm : Vm halves
vm = record {
  links = record {
    next = λ a. if a == 1 then 2 else if a == 2 then 3 else if a == 3 then 1 else null;
    prev = λ a. if a == 1 then 3 else if a == 2 then 1 else if a == 3 then 2 else null;
  };
  task = task_at;
  info = info_at;
  head = 1;
  nr_running = 3;
  current = 2;
  idle = 5;
  init = 1;
  jiffies = 7;
  clocktick = 100;
  timer = 5000;
  int_timer = pos 1;
  int_wait_timer = pos 1;
  endtime = 1000;
  process_id = 4;
  rand = λ n. n;
  draws = 0;
  waiting = 4 ∷ [];
  to_spawn = λ p. if p == 11 then 20 ∷ 21 ∷ [] else [];
  fresh = 50;
  live = λ p. true;
}

vm-IsRunqueue : IsRunqueue vm (2 ∷ 3 ∷ [])
vm-IsRunqueue = record {
  ring = record {
    chain = (refl, refl, (refl, refl, (refl, refl)));
    distinct = (refl, (refl, (refl, tt)));
  };
  counted = refl;
}

schedule-Chosen_example :
    Returns
      (λ s'.
        Chosen halves-IsOrder vm (2 ∷ 3 ∷ []) s'.current
        × Switched vm s'.current s'
        × IsRunqueue s' (2 ∷ 3 ∷ []))
      (schedule 3 vm)
schedule-Chosen_example = schedule-Chosen halves-IsOrder 3 vm 2 (3 ∷ []) vm-IsRunqueue (omega arith)

-- Init alone on the runqueue.
abbrev alone : Vm halves
alone = record vm { links = record { next = λ a. 1; prev = λ a. 1 }; nr_running = 1 }

alone-IsRunqueue : IsRunqueue alone []
alone-IsRunqueue = record {
  ring = record { chain = (refl, refl); distinct = (refl, tt) };
  counted = refl;
}

deactivate_task-IsRunqueue_example :
    IsRunqueue (deactivate_task 3 vm) (2 ∷ [])
    × ((deactivate_task 3 vm).links.next 3 ≡ null)
    × ((deactivate_task 3 vm).links.prev 3 ≡ null)
deactivate_task-IsRunqueue_example =
    deactivate_task-IsRunqueue vm (2 ∷ []) [] 3 vm-IsRunqueue (omega arith)

sleep-io_timer_example :
    IsRunqueue (io_timer (sleep vm)) (2 ∷ 4 ∷ 3 ∷ []) × ((io_timer (sleep vm)).waiting ≡ [])
sleep-io_timer_example =
    sleep-io_timer vm [] (3 ∷ []) vm-IsRunqueue (refl, (refl, (refl, (refl, tt)))) (omega arith)
      refl refl

-- Task 2 is past its kill time.
vm-must_end : must_end vm ≡ true
unfolding must_end
vm-must_end = refl

task_end-leaves_example :
    ((task_end vm).0 ≡ true)
    × IsRunqueue (task_end vm).1 (3 ∷ [])
    × ((task_end vm).1.current ≡ 5)
    × (((task_end vm).1.task 5).need_reschedule ≡ true)
    × (((task_end vm).1.info 11).children ≡ pos 2)
    × ((task_end vm).1.live 2 ≡ false)
    × ((task_end vm).1.live 12 ≡ false)
task_end-leaves_example =
    task_end-leaves vm [] (3 ∷ []) vm-IsRunqueue (omega arith) vm-must_end refl
      (λ e. absurd (ground arith)) (λ e. absurd (ground arith)) (λ e. absurd (ground arith))
