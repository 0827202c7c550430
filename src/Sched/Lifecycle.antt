-- ===== src/Sched/Lifecycle.antt =====
-- What hw2/Scheduler_VM/cpu.c does to the runqueue when tasks end, sleep, wake up and fork.
use uth_operating_systems.Base.{
  ◌+◌, ◌^◌, ◌<◌, ◌≡◌, ◌≢◌, refl, ◌∙◌, ap, true, false, List, [], ◌∷◌, ◌++◌, append_assoc, arith,
  ◌==◌, ==-refl, length, length-append, has-append, ◌∉◌, Distinct, Distinct-insert, Distinct-remove,
  pos, minus_one, dec, is_zero,
}
use uth_operating_systems.Links.{Ptr, null}
use uth_operating_systems.Sched.{Double, Vm, info_of}
use uth_operating_systems.Sched.Schedule.{activate_task, deactivate_task, sched_fork}
use uth_operating_systems.Sched.Runqueue.{
  IsRunqueue, IsRunqueue-congr, activate_task-IsRunqueue, deactivate_task-IsRunqueue,
  wake_up_new_task-IsRunqueue,
}
use uth_operating_systems.Sched.Tasks.{
  must_end, mark_killed, kill_task, task_end, fork_task, create_task, prepare_task, alloc, free,
}
use uth_operating_systems.Links.Ops.{Ring-frame}
use uth_operating_systems.Sched.Cpu.{wake_all, sleep, io_timer}

-- The tasks `ps` put one after the other in front of `xs`.
abbrev pub queued : List Ptr → List Ptr → List Ptr
queued [] xs = xs
queued (p ∷ ps) xs = queued ps (p ∷ xs)

Distinct-shift :
    (ps : List Ptr) (p h : Ptr) (xs : List Ptr)
    → Distinct (p ∷ ps ++ h ∷ xs)
    → Distinct (ps ++ h ∷ p ∷ xs)
Distinct-shift [] p h xs d = (ground arith, (ground arith, d.1.1))
Distinct-shift (z ∷ ps) p h xs d = (
  ground (arith, has-append z ps (h ∷ xs), has-append z ps (h ∷ p ∷ xs)),
  Distinct-shift ps p h xs (ground arith, d.1.1),
)

Distinct-move :
    (ps us : List Ptr) (x : Ptr) (vs : List Ptr)
    → Distinct (ps ++ (us ++ x ∷ vs))
    → Distinct (ps ++ (x ∷ us ++ vs))
Distinct-move ps us x vs d =
    let (e, o) = Distinct-remove (ps ++ us) x vs (rw (append_assoc ps us (x ∷ vs)) d) in
    Distinct-insert ps x (us ++ vs) (rw (← append_assoc ps us vs) e)
      (rw (← append_assoc ps us vs) o)

queued-last :
    (ps : List Ptr) (p : Ptr) (xs : List Ptr) → queued (ps ++ p ∷ []) xs ≡ p ∷ queued ps xs
queued-last [] p xs = refl
queued-last (y ∷ ps) p xs = queued-last ps p (y ∷ xs)

module _ {F : Double} where
  wake_all-IsRunqueue :
      (ps xs : List Ptr) (s : Vm F)
      → IsRunqueue s xs
      → Distinct (ps ++ s.head ∷ xs)
      → length ps + length xs + 1 < 2 ^ 64
      → IsRunqueue (wake_all ps s) (queued ps xs)
        × ((wake_all ps s).waiting ≡ s.waiting)
        × ((wake_all ps s).int_timer ≡ s.int_timer)
        × ((wake_all ps s).head ≡ s.head)
        × ((wake_all ps s).current ≡ s.current)
  unfolding wake_all activate_task
  wake_all-IsRunqueue [] xs s q d few = (q, refl, refl, refl, refl)
  wake_all-IsRunqueue (p ∷ ps) xs s q d few =
      let o : p ∉ (s.head ∷ xs) = ground (arith, has-append p ps (s.head ∷ xs)) in
      wake_all-IsRunqueue ps (p ∷ xs) (activate_task p s)
        (activate_task-IsRunqueue s xs q p o (omega arith)) (Distinct-shift ps p s.head xs d)
        (omega arith)

  -- A task that leaves is not waiting, and the timer of the wait is off.
  pub io_timer-wakes :
      (s : Vm F) (xs : List Ptr)
      → IsRunqueue s xs
      → Distinct (s.waiting ++ s.head ∷ xs)
      → length s.waiting + length xs + 1 < 2 ^ 64
      → s.int_timer ≡ pos 1
      → IsRunqueue (io_timer s) (queued s.waiting xs)
        × ((io_timer s).waiting ≡ [])
        × ((io_timer s).int_timer ≡ minus_one)
        × (((io_timer s).task s.current).need_reschedule ≡ true)
  unfolding io_timer
  io_timer-wakes s xs q d few e =
      let s0 = record s { int_timer = minus_one; waiting = [] } in
      let q0 = IsRunqueue-congr s s0 xs refl refl refl q in
      let (r, w, i, h, c) = wake_all-IsRunqueue s.waiting xs s0 q0 d few in
      rw e (record { ring = r.ring; counted = r.counted }, w, i, rw (c, ==-refl s.current) refl)

  pub sleep-waits :
      (s : Vm F) (us vs : List Ptr)
      → IsRunqueue s (us ++ s.current ∷ vs)
      → length (us ++ s.current ∷ vs) + 1 < 2 ^ 64
      → s.int_wait_timer ≡ pos 1
      → IsRunqueue (sleep s) (us ++ vs)
        × ((sleep s).waiting ≡ s.waiting ++ (s.current ∷ []))
        × ((sleep s).links.next s.current ≡ null)
        × (((sleep s).task s.current).need_reschedule ≡ true)
  unfolding sleep deactivate_task
  sleep-waits s us vs q few e =
      let (r, n, p) = deactivate_task-IsRunqueue s us vs s.current q few in
      rw e (record { ring = r.ring; counted = r.counted }, refl, n, rw (==-refl s.current) refl)

  sleep-head : (s : Vm F) → (sleep s).head ≡ s.head
  unfolding sleep deactivate_task
  sleep-head s = ground arith

  sleep-int_timer : (s : Vm F) → (sleep s).int_timer ≡ s.int_timer
  unfolding sleep deactivate_task
  sleep-int_timer s = ground arith

  -- If the current task is on the runqueue, no waiting task is, the tasks are fewer than 2^64, and
  -- both the wait timer and the interrupt timer are about to expire, then after the task has gone
  -- to sleep and the interrupt has fired, it stands first behind the head of the runqueue, with the
  -- tasks that had waited before it, the last of them first, then the others in their old order,
  -- and no task waits.
  pub sleep-io_timer :
      (s : Vm F) (us vs : List Ptr)
      → IsRunqueue s (us ++ s.current ∷ vs)
      → Distinct (s.waiting ++ (s.head ∷ us ++ s.current ∷ vs))
      → length s.waiting + length (us ++ s.current ∷ vs) + 1 < 2 ^ 64
      → s.int_wait_timer ≡ pos 1
      → s.int_timer ≡ pos 1
      → IsRunqueue (io_timer (sleep s)) (s.current ∷ queued s.waiting (us ++ vs))
        × ((io_timer (sleep s)).waiting ≡ [])
  sleep-io_timer s us vs q d few e i =
      let c = s.current in
      let (r, w, n, f) = sleep-waits s us vs q (omega arith) e in
      let apart : Distinct ((sleep s).waiting ++ (s.head ∷ us ++ vs)) =
        rw (w, append_assoc s.waiting (c ∷ []) (s.head ∷ us ++ vs))
          (Distinct-move s.waiting (s.head ∷ us) c vs d) in
      let few' : length (sleep s).waiting + length (us ++ vs) + 1 < 2 ^ 64 = rw w (
        omega (
          arith,
          length-append s.waiting (c ∷ []),
          length-append us vs,
          length-append us (c ∷ vs),
        )) in
      let (r', w', m, g) =
        io_timer-wakes (sleep s) (us ++ vs) r (rw (sleep-head s) apart) few'
          (sleep-int_timer s ∙ i) in
      (rw (← queued-last s.waiting c (us ++ vs), ← w) r', w')

  kill_task-IsRunqueue : (s : Vm F) (xs : List Ptr) → IsRunqueue s xs → IsRunqueue (kill_task s) xs
  unfolding kill_task free
  kill_task-IsRunqueue s xs q = IsRunqueue-congr s (kill_task s) xs refl refl refl q

  kill_task-frees :
      (s : Vm F) (t up : Ptr)
      → (s.task s.current).thread_info ≡ t
      → (s.info t).parent ≡ up
      → (s.nr_running == 0) ≡ false
      → up ≢ null
      → s.idle ≢ s.current
      → ((kill_task s).current ≡ s.idle)
        × (((kill_task s).task s.idle).need_reschedule ≡ true)
        × (((kill_task s).info up).children ≡ dec (s.info up).children)
        × ((kill_task s).live s.current ≡ false)
        × ((kill_task s).live t ≡ false)
  unfolding kill_task free
  kill_task-frees s t up e f n u w =
      let parent_known : (up == null) ≡ false = ground arith in
      rw (e, f, n, parent_known, ==-refl s.idle, ==-refl up, ==-refl s.current, ==-refl t)
        (refl, refl, refl, refl, ground arith)

  task_end-ended :
      (s : Vm F)
      → must_end s ≡ true
      → is_zero (info_of s s.current).children ≡ true
      → task_end s ≡ (true, kill_task (deactivate_task s.current (mark_killed s)))
  unfolding task_end
  task_end-ended s e z = rw (e, z) refl

  -- If the current task is on the runqueue, which has fewer than 2^64 tasks, must end and has no
  -- running children, its thread has a parent other than itself, and it is not the idle task, then
  -- `taskEnd` says that it has ended; it is off the runqueue, on which the others keep their order;
  -- the idle task is current and asks to be rescheduled; the parent counts one child less; and the
  -- task and its thread are freed.
  pub task_end-leaves :
      (s : Vm F) (us vs : List Ptr)
      → let t = (s.task s.current).thread_info in
        let up = (s.info t).parent in
        IsRunqueue s (us ++ s.current ∷ vs)
        → length (us ++ s.current ∷ vs) + 1 < 2 ^ 64
        → must_end s ≡ true
        → (s.info t).children ≡ pos 0
        → up ≢ null
        → up ≢ t
        → s.idle ≢ s.current
        → ((task_end s).0 ≡ true)
          × IsRunqueue (task_end s).1 (us ++ vs)
          × ((task_end s).1.current ≡ s.idle)
          × (((task_end s).1.task s.idle).need_reschedule ≡ true)
          × (((task_end s).1.info up).children ≡ dec (s.info up).children)
          × ((task_end s).1.live s.current ≡ false)
          × ((task_end s).1.live t ≡ false)
  unfolding deactivate_task mark_killed
  task_end-leaves s us vs q few ends none u v w =
      let t = (s.task s.current).thread_info in
      let s1 = mark_killed s in
      let (r, n, p) =
        deactivate_task-IsRunqueue s1 us vs s.current
          (record { ring = q.ring; counted = q.counted }) few in
      let s2 = deactivate_task s.current s1 in
      let own : ((s2.task s.current).thread_info) ≡ t = rw (==-refl s.current) refl in
      let above : (s2.info t).parent ≡ (s.info t).parent = rw (==-refl t) refl in
      let more : (s2.nr_running == 0) ≡ false =
        ground (arith, q.counted, few, length-append us (s.current ∷ vs)) in
      let apart : ((s.info t).parent == t) ≡ false = ground arith in
      let kept : (s2.info (s.info t).parent).children ≡ (s.info (s.info t).parent).children =
        rw apart refl in
      let (a, b, c, d, e) = kill_task-frees s2 t (s.info t).parent own above more u w in
      rw (task_end-ended s ends (rw none refl))
        (refl, kill_task-IsRunqueue s2 (us ++ vs) r, a, b, c ∙ ap dec kept, d, e)

  prepare_task-IsRunqueue :
      (thread : Ptr) (s : Vm F) (xs : List Ptr)
      → IsRunqueue s xs
      → s.fresh ∉ (s.head ∷ xs)
      → IsRunqueue (prepare_task thread s) xs
  unfolding prepare_task create_task alloc
  prepare_task-IsRunqueue thread s xs q o = record {
    ring = Ring-frame _ q.ring (λ a i. (ground arith, ground arith));
    counted = q.counted;
  }

  prepare_task-head : (thread : Ptr) (s : Vm F) → (prepare_task thread s).head ≡ s.head
  unfolding prepare_task create_task alloc
  prepare_task-head thread s = refl

  -- A new task stands first behind the head of the runqueue.
  pub fork_task-IsRunqueue :
      (thread : Ptr) (s : Vm F) (xs : List Ptr)
      → IsRunqueue s xs
      → s.fresh ∉ (s.head ∷ xs)
      → length xs + 2 < 2 ^ 64
      → IsRunqueue (fork_task thread s) (s.fresh ∷ xs)
  unfolding fork_task sched_fork
  fork_task-IsRunqueue thread s xs q o few =
      let s1 = sched_fork s.fresh (prepare_task thread s) in
      let q0 = prepare_task-IsRunqueue thread s xs q o in
      let q1 : IsRunqueue s1 xs = record { ring = q0.ring; counted = q0.counted } in
      let q2 =
        wake_up_new_task-IsRunqueue s1 xs q1 s.fresh (rw (prepare_task-head thread s) o) few in
      record { ring = q2.ring; counted = q2.counted }
