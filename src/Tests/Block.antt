-- ===== src/Tests/Block.antt =====
-- A request queue with two pending and two dispatched requests, for hw4 and hw1.
use uth_operating_systems.Base.{
  ℕ, ◌≡◌, refl, true, false, List, [], ◌∷◌, ◌++◌, arith, Returns, ◌==◌, if◌then◌else◌, ◌%◌, update,
}
use uth_operating_systems.Links.{Ptr, null, Links}
use uth_operating_systems.Links.Chain.{Ring}
use uth_operating_systems.Elevator.{Request, Queue, rq_end_sector}
use uth_operating_systems.Elevator.Dispatch.{elv_dispatch_sort}
use uth_operating_systems.Elevator.Order.{
  Ascending, distance, elv_dispatch_sort-Ascending, elv_dispatch_sort-barrier,
}
use uth_operating_systems.Elevator.Scheduler.{Holds, Dispatched}
use uth_operating_systems.Elevator.Drain.{elv_drain_elevator, elv_drain_elevator-Drained, Drained}
use uth_operating_systems.Elevator.Add.{Block, back, elv_add_request, elv_requeue_request}
use uth_operating_systems.Elevator.Insertion.{
  Counts, LastBarrier, elv_add_request-back, elv_requeue_request-front,
}
use uth_operating_systems.Clook.{clook_add_request, elevator_clook}
use uth_operating_systems.Clook.Insert.{clook_add_request-Ascending}
use uth_operating_systems.Clook.Laws.{elevator_clook-IsScheduler}
use uth_operating_systems.Noop.{team42_noop_add_request, team42_noop_dispatch}
use uth_operating_systems.Noop.Laws.{team42_noop_fifo}

-- 100 → 3 → 4 → 100 is the dispatch queue, 200 → 1 → 2 → 200 the scheduler's list; 5 is new.
abbrev pub two_rings : Links
two_rings = record {
  next = λ a.
      if a == 100
      then 3
      else if a == 3
      then 4
      else if a == 4
      then 100
      else if a == 200
      then 1
      else if a == 1
      then 2
      else 200;
  prev = λ a.
      if a == 100
      then 4
      else if a == 4
      then 3
      else if a == 3
      then 100
      else if a == 200
      then 2
      else if a == 2
      then 1
      else 200;
}

-- A write of 8 sectors by a file system.
abbrev pub write_at : ℕ → Request
write_at s = record {
  sector = s;
  sectors = 8;
  fs = true;
  write = true;
  discard = false;
  softbarrier = false;
  started = false;
  sorted = false;
  elvpriv = true;
  nomerge = false;
  sync = false;
  quiet = false;
}

-- The sweep starts at sector 500: request 3 at 600, request 4 at 100, the new one at 550.
abbrev pub requests : Ptr → Request
requests a = write_at (
    if a == 1
    then 10
    else if a == 2
    then 30
    else if a == 3
    then 600
    else if a == 4
    then 100
    else 550)

abbrev pub queue : Queue
queue = record {
  links = two_rings;
  request = requests;
  queue_head = 100;
  elevator = 300;
  sched = 200;
  table = [];
  last_merge = null;
  nr_sorted = 2;
  end_sector = 500;
  boundary_rq = null;
  released = [];
  nomerges = false;
  noxmerges = false;
  in_flight = λ s. 0;
}

pub dispatched-Ring : Ring two_rings 100 (3 ∷ 4 ∷ [])
dispatched-Ring = record {
  chain = (refl, refl, (refl, refl, (refl, refl)));
  distinct = (refl, (refl, (refl, tt)));
}

pending-Ring : Ring two_rings 200 (1 ∷ 2 ∷ [])
pending-Ring = record {
  chain = (refl, refl, (refl, refl, (refl, refl)));
  distinct = (refl, (refl, (refl, tt)));
}

queue-Holds : Holds queue (1 ∷ 2 ∷ []) (3 ∷ 4 ∷ [])
queue-Holds = record {
  dispatch = dispatched-Ring;
  waiting = pending-Ring;
  apart = λ a i. ground arith;
}

queue-Counts : Counts queue (1 ∷ 2 ∷ []) (3 ∷ 4 ∷ [])
queue-Counts = record { holds = queue-Holds; counted = refl }

elv_dispatch_sort-Ascending_example :
    Returns
      (λ q'.
        (us : List Ptr) × (vs : List Ptr) × (us ++ vs ≡ 3 ∷ 4 ∷ [])
        × Ring q'.links 100 (us ++ 5 ∷ vs)
        × Ascending (distance queue) (us ++ 5 ∷ vs))
      (elv_dispatch_sort 9 queue 5)
elv_dispatch_sort-Ascending_example =
    elv_dispatch_sort-Ascending queue 5 9 (3 ∷ 4 ∷ []) dispatched-Ring refl (omega arith)
      (omega arith) (omega arith)
      (
        record {
          discard = refl;
          write = refl;
          softbarrier = refl;
          started = refl;
          fits = omega arith;
        },
        (
          record {
            discard = refl;
            write = refl;
            softbarrier = refl;
            started = refl;
            fits = omega arith;
          },
          tt,
        ),
      )
      ((omega arith, tt), (tt, tt))

-- 3 has been started, so 5 stays behind it although its sector comes first.
abbrev started_queue : Queue
started_queue = record queue {
  request = update requests 3 (record (write_at 600) { started = true });
}

elv_dispatch_sort-barrier_example :
    Returns
      (λ q'.
        (ws : List Ptr) × (zs : List Ptr) × (ws ++ zs ≡ 4 ∷ [])
        × Ring q'.links 100 (3 ∷ (ws ++ 5 ∷ zs)))
      (elv_dispatch_sort 9 started_queue 5)
elv_dispatch_sort-barrier_example =
    elv_dispatch_sort-barrier started_queue 5 9 [] 3 (4 ∷ []) dispatched-Ring refl (omega arith)
      refl

elv_drain_elevator-Drained_example :
    Returns (Drained queue (1 ∷ 2 ∷ []) (3 ∷ 4 ∷ [])) (elv_drain_elevator elevator_clook 9 9 queue)
elv_drain_elevator-Drained_example =
    elv_drain_elevator-Drained elevator_clook-IsScheduler 9 9 queue (1 ∷ 2 ∷ []) (3 ∷ 4 ∷ [])
      queue-Holds refl (omega arith) (omega arith) (omega arith)

clook_add_request-Ascending_example :
    Returns
      (λ q'.
        (us : List Ptr) × (vs : List Ptr) × (us ++ vs ≡ 1 ∷ 2 ∷ [])
        × Holds q' (us ++ 5 ∷ vs) (3 ∷ 4 ∷ [])
        × Ascending (rq_end_sector q') (us ++ 5 ∷ vs))
      (clook_add_request 9 queue 5)
unfolding rq_end_sector
clook_add_request-Ascending_example =
    clook_add_request-Ascending queue 5 (1 ∷ 2 ∷ []) (3 ∷ 4 ∷ []) 9 queue-Holds refl refl
      (omega arith) ((omega arith, tt), (tt, tt))

team42_noop_fifo_example :
    Returns
      (λ r.
        (r.0 ≡ true) × Dispatched 1 (2 ∷ 5 ∷ []) (3 ∷ 4 ∷ []) (team42_noop_add_request queue 5) r.1)
      (team42_noop_dispatch 9 (team42_noop_add_request queue 5))
team42_noop_fifo_example =
    team42_noop_fifo 9 queue 5 (1 ∷ 2 ∷ []) (3 ∷ 4 ∷ []) queue-Holds refl refl (omega arith)

-- A block layer whose hash has 64 buckets, that merges nothing and runs nothing.
abbrev quiet : Block
quiet = record {
  bucket = λ k. k % 64;
  run_queue = λ q. q;
  insert_flush = λ q rq. q;
  attempt_req_merge = λ q rq next. (false, q);
}

elv_add_request-back_example :
    Returns
      (λ q'. (q1 : Queue) × (q' ≡ quiet.run_queue q1) × LastBarrier 5 (1 ∷ 2 ∷ []) (3 ∷ 4 ∷ []) q1)
      (elv_add_request quiet elevator_clook 9 queue 5 back)
elv_add_request-back_example =
    elv_add_request-back quiet elevator_clook-IsScheduler 9 queue 5 back (1 ∷ 2 ∷ []) (3 ∷ 4 ∷ [])
      queue-Counts refl refl refl (omega arith) (omega arith)

elv_requeue_request-front_example :
    Returns
      (λ q'.
        Counts q' (1 ∷ 2 ∷ []) (5 ∷ 3 ∷ 4 ∷ [])
        × ((q'.request 5).softbarrier ≡ true)
        × ((q'.request 5).started ≡ false))
      (elv_requeue_request quiet elevator_clook 9 queue 5)
elv_requeue_request-front_example =
    elv_requeue_request-front quiet elevator_clook-IsScheduler 9 queue 5 (1 ∷ 2 ∷ []) (3 ∷ 4 ∷ [])
      queue-Counts refl refl

-- Run by the code: 5 goes before 3.
dispatch_runs :
    Returns
      (λ q'. (q'.links.next 100 ≡ 5) × (q'.links.next 5 ≡ 3) × (q'.links.next 4 ≡ 100))
      (elv_dispatch_sort 9 queue 5)
unfolding elv_dispatch_sort
dispatch_runs = (_, refl, (refl, refl, refl))
