-- ===== src/Elevator/Add.antt =====
-- Insertion of requests, hw4/elevator.c: `__elv_add_request` with its six insertion points,
-- `elv_attempt_insert_merge`, `elv_requeue_request`, `elv_completed_request` and the functions that
-- follow a merge. What elevator.c calls outside the repository is the record `Block`.
use uth_operating_systems.Base.{
  ℕ, zero, suc, Bool, true, false, ◌&&◌, not, Run, ok, bug, out_of_fuel, ◌>>=◌, ◌==◌, if◌then◌else◌,
}
use uth_operating_systems.Links.{Ptr, null, list_add, list_add_tail}
use uth_operating_systems.Elevator.{
  Request, Queue, rq_end_sector, rq_mergeable, dec32, inc32, set_request, blk_rq_pos,
}
use uth_operating_systems.Elevator.Hash.{elv_rqhash_add, elv_rqhash_find}
use uth_operating_systems.Elevator.Dispatch.{differ}
use uth_operating_systems.Elevator.Scheduler.{ElevatorOps}
use uth_operating_systems.Elevator.Drain.{elv_drain_elevator}

-- The block layer's functions: the bucket of a hash key, `__blk_run_queue`, `blk_insert_flush`, and
-- `blk_attempt_req_merge`, which answers whether it merged its second request into its first.
pub record Block : Type 0 where
  pub bucket : ℕ → ℕ
  pub run_queue : Queue → Queue
  pub insert_flush : Queue → Ptr → Queue
  pub attempt_req_merge : Queue → Ptr → Ptr → Bool × Queue

-- `ELEVATOR_INSERT_…`, and the numbers that are none of these.
pub data Where : Type 0 where
  front back sort requeue flush sort_merge other : Where

abbrev pub is_sort : Where → Bool
is_sort sort = true
is_sort sort_merge = true
is_sort _ = false

-- The insertion point that is used: a request without the scheduler's data that is no barrier is
-- not sorted but goes to the back.
abbrev pub effective : Request → Where → Where
effective r place =
    if r.softbarrier then place else if not r.elvpriv && is_sort place then back else place

-- A barrier of a file system is the new scheduling boundary.
unfoldable pub mark_boundary : Queue → Ptr → Queue
unfolding rq_end_sector
mark_boundary q rq =
    let ends = (q.request rq).softbarrier && (q.request rq).fs in
    record q {
      end_sector = if ends then rq_end_sector q rq else q.end_sector;
      boundary_rq = if ends then rq else q.boundary_rq;
    }

-- `rq->cmd_flags |= REQ_SOFTBARRIER`
abbrev pub set_softbarrier : Ptr → Queue → Queue
set_softbarrier rq q = set_request rq (record (q.request rq) { softbarrier = true }) q

-- `elv_completed_request`: if the driver has a file system's request (`blk_account_rq`),
-- `q->in_flight[rq_is_sync(rq)]--`. No scheduler of the repository sets the hook that is called then.
unfoldable pub elv_completed_request : Queue → Ptr → Queue
elv_completed_request q rq = record q {
  in_flight = λ s.
      if (q.request rq).started && (q.request rq).fs && not (differ s (q.request rq).sync)
      then dec32 (q.in_flight s)
      else q.in_flight s;
}

module _ (b : Block) (ops : ElevatorOps) where
  -- The `while (1)` loop: the request is merged into another, that one perhaps into a third.
  unfoldable pub merge_loop : ℕ → Bool → Queue → Ptr → Run (Bool × Queue)
  merge_loop zero ret q rq = out_of_fuel
  merge_loop (suc fuel) ret q rq =
      let found = elv_rqhash_find b.bucket q (blk_rq_pos q rq) in
      let tried = b.attempt_req_merge found.1 found.0 rq in
      let again = merge_loop fuel true tried.1 found.0 in
      if found.0 == null then ok (ret, found.1) else if tried.0 then again else ok (ret, tried.1)

  unfoldable pub elv_attempt_insert_merge : ℕ → Queue → Ptr → Run (Bool × Queue)
  unfolding merge_loop
  elv_attempt_insert_merge fuel q rq =
      let tried = b.attempt_req_merge q q.last_merge rq in
      let q1 = if q.last_merge == null then q else tried.1 in
      if q.nomerges
      then ok (false, q)
      else if not (q.last_merge == null) && tried.0
      then ok (true, tried.1)
      else if q1.noxmerges
      then ok (false, q1)
      else merge_loop fuel false q1 rq

  -- `case ELEVATOR_INSERT_SORT`
  unfoldable pub insert_sort : ℕ → Queue → Ptr → Run Queue
  unfolding elv_rqhash_add rq_mergeable
  insert_sort fuel q rq =
      let q1 = record (set_request rq (record (q.request rq) { sorted = true }) q) {
        nr_sorted = inc32 q.nr_sorted;
      } in
      if not (q.request rq).fs
      then bug
      else if rq_mergeable q1 rq
      then (do
        q2 ← elv_rqhash_add b.bucket q1 rq
        ops.add_req_fn fuel
            (record q2 { last_merge = if q2.last_merge == null then rq else q2.last_merge }) rq)
      else ops.add_req_fn fuel q1 rq

  -- `case ELEVATOR_INSERT_BACK`
  unfoldable pub insert_back : ℕ → Queue → Ptr → Run Queue
  unfolding elv_drain_elevator
  insert_back fuel q rq = do
    q1 ← elv_drain_elevator ops fuel fuel (set_softbarrier rq q)
    ok (b.run_queue (record q1 { links = list_add_tail rq q1.queue_head q1.links }))

  -- The `switch`.
  unfoldable pub insert_at : ℕ → Where → Queue → Ptr → Run Queue
  unfolding insert_sort insert_back elv_attempt_insert_merge
  insert_at fuel requeue q rq =
      ok (record (set_softbarrier rq q) { links = list_add rq q.queue_head q.links })
  insert_at fuel front q rq =
      ok (record (set_softbarrier rq q) { links = list_add rq q.queue_head q.links })
  insert_at fuel back q rq = insert_back fuel q rq
  insert_at fuel sort_merge q rq = do
    tried ← elv_attempt_insert_merge fuel q rq
    if tried.0 then ok tried.1 else insert_sort fuel tried.1 rq
  insert_at fuel sort q rq = insert_sort fuel q rq
  insert_at fuel flush q rq = ok (b.insert_flush (set_softbarrier rq q) rq)
  insert_at fuel other q rq = bug

  -- `__elv_add_request`, and `elv_add_request`, which takes the queue's lock round it.
  unfoldable pub elv_add_request : ℕ → Queue → Ptr → Where → Run Queue
  unfolding insert_at mark_boundary
  elv_add_request fuel q rq place =
      insert_at fuel (effective (q.request rq) place) (mark_boundary q rq) rq

  -- `elv_requeue_request`, whose first statement counts as a completion does. No scheduler of the
  -- repository has the hook that `elv_deactivate_rq` calls; power management is left out, as
  -- without CONFIG_PM_RUNTIME.
  unfoldable pub elv_requeue_request : ℕ → Queue → Ptr → Run Queue
  unfolding elv_add_request elv_completed_request
  elv_requeue_request fuel q rq =
      elv_add_request fuel
        (set_request rq (record (q.request rq) { started = false }) (elv_completed_request q rq)) rq
        requeue
