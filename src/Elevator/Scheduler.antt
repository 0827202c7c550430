-- ===== src/Elevator/Scheduler.antt =====
-- What hw4/elevator.c asks of an I/O scheduler: the function pointers of `struct elevator_ops`
-- (hw4/elevator.h) that the two schedulers of the repository set, and the contract of these
-- functions towards a queue that holds some requests and has dispatched others.
use uth_operating_systems.Base.{
  ℕ, ◌<◌, ◌≡◌, Bool, true, false, List, [], ◌∷◌, ◌++◌, Run, ok, Returns, length, has, ◌∉◌,
}
use uth_operating_systems.Links.{Ptr}
use uth_operating_systems.Links.Chain.{Ring}
use uth_operating_systems.Elevator.{Queue, dec32}

-- The `elevator_ops` that the schedulers fill. The loops of each take fuel first.
pub record ElevatorOps : Type 0 where
  pub dispatch_fn : ℕ → Queue → Run (Bool × Queue)
  pub add_req_fn : ℕ → Queue → Ptr → Run Queue
  pub merge_req_fn : Queue → Ptr → Ptr → Queue
  pub former_req_fn : Queue → Ptr → Ptr
  pub latter_req_fn : Queue → Ptr → Ptr

-- The scheduler's list holds `pending`, the dispatch queue `dispatched`, and no address is on both.
pub record Holds (q : Queue) (pending dispatched : List Ptr) : Type 0 where
  pub dispatch : Ring q.links q.queue_head dispatched
  pub waiting : Ring q.links q.sched pending
  pub apart : (a : Ptr) → has a (q.queue_head ∷ dispatched) ≡ true → a ∉ (q.sched ∷ pending)

-- One request goes to some place of the dispatch queue.
pub record Dispatched (x : Ptr) (xs ds : List Ptr) (q q' : Queue) : Type 0 where
  pub front : List Ptr
  pub rear : List Ptr
  pub whole : front ++ rear ≡ ds
  pub holds : Holds q' xs (front ++ x ∷ rear)
  pub counted : q'.nr_sorted ≡ dec32 q.nr_sorted
  pub same_head : q'.queue_head ≡ q.queue_head
  pub same_sched : q'.sched ≡ q.sched
  pub same_requests : q'.request ≡ q.request

-- The contract of an I/O scheduler.
pub record IsScheduler (ops : ElevatorOps) : Type 0 where
  -- With nothing pending, dispatching does nothing and says so.
  pub dispatch_idle :
      (fuel : ℕ) (q : Queue) (ds : List Ptr)
      → Holds q [] ds
      → ops.dispatch_fn fuel q ≡ ok (false, q)
  -- Otherwise the first pending request moves to the dispatch queue.
  pub dispatch_first :
      (fuel : ℕ) (q : Queue) (x : Ptr) (xs ds : List Ptr)
      → Holds q (x ∷ xs) ds
      → length ds < fuel
      → Returns (λ r. (r.0 ≡ true) × Dispatched x xs ds q r.1) (ops.dispatch_fn fuel q)
  -- A request that is added is pending afterwards, between two parts of those that were.
  pub add_pending :
      (fuel : ℕ) (q : Queue) (rq : Ptr) (xs ds : List Ptr)
      → Holds q xs ds
      → rq ∉ (q.sched ∷ xs)
      → rq ∉ (q.queue_head ∷ ds)
      → length xs < fuel
      → Returns
          (λ q'.
            (us : List Ptr) × (vs : List Ptr) × (us ++ vs ≡ xs)
            × Holds q' (us ++ rq ∷ vs) ds
            × (q'.nr_sorted ≡ q.nr_sorted))
          (ops.add_req_fn fuel q rq)
