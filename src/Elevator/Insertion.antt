-- ===== src/Elevator/Insertion.antt =====
-- What the insertion points of `__elv_add_request`, hw4/elevator.c, do to the two queues, over any
-- I/O scheduler that keeps its contract.
use uth_operating_systems.Base.{
  ℕ, ◌+◌, ◌<◌, ◌^◌, ◌≡◌, refl, ap, true, false, List, [], ◌∷◌, ◌++◌, ◌||◌, arith, ok, Returns,
  length, has, ◌∉◌, ==-refl, Bool-cases, inl, inr, length-append,
}
use uth_operating_systems.Links.{Ptr, list_add, list_add_tail}
use uth_operating_systems.Elevator.{Request, Queue, set_request, rq_mergeable}
use uth_operating_systems.Elevator.Hash.{hashed, elv_rqhash_add}
use uth_operating_systems.Elevator.Scheduler.{ElevatorOps, IsScheduler, Holds}
use uth_operating_systems.Elevator.Move.{dispatch_last, dispatch_front}
use uth_operating_systems.Elevator.Drain.{elv_drain_elevator-Drained, Drained}
use uth_operating_systems.Elevator.Add.{
  Block, Where, back, requeue, set_softbarrier, insert_back, insert_sort, insert_at,
  elv_add_request, elv_requeue_request, effective, mark_boundary, elv_completed_request,
}

-- A queue that counts its pending requests.
pub record Counts (q : Queue) (xs ds : List Ptr) : Type 0 where
  pub holds : Holds q xs ds
  pub counted : q.nr_sorted ≡ length xs

-- `rq` at the end of a dispatch queue that holds all there was.
abbrev pub LastBarrier : (rq : Ptr) (xs ds : List Ptr) → Queue → Type 0
LastBarrier rq xs ds q =
    (all : List Ptr) × Counts q [] (all ++ rq ∷ [])
    × ((a : Ptr) → has a all ≡ (has a xs || has a ds))
    × ((q.request rq).softbarrier ≡ true)

absent_of_parts :
    (rq s h : Ptr) (xs ds all : List Ptr)
    → has rq all ≡ (has rq xs || has rq ds)
    → rq ∉ (s ∷ xs)
    → rq ∉ (h ∷ ds)
    → rq ∉ (h ∷ all)
absent_of_parts rq s h xs ds all e out out' = ground arith

last_barrier :
    (q q1 : Queue) (rq : Ptr) (xs ds : List Ptr)
    → Drained (set_softbarrier rq q) xs ds q1
    → rq ∉ (q.sched ∷ xs)
    → rq ∉ (q.queue_head ∷ ds)
    → LastBarrier rq xs ds (record q1 { links = list_add_tail rq q1.queue_head q1.links })
last_barrier q q1 rq xs ds d out out' =
    let absent : rq ∉ (q1.queue_head ∷ d.all) =
      rw d.same_head
        (absent_of_parts rq q.sched q.queue_head xs ds d.all (d.members rq) out out') in
    let absent' : rq ∉ (q1.sched ∷ []) = rw d.same_sched (ground arith) in
    (
      d.all,
      record { holds = dispatch_last q1 rq [] d.all d.holds absent' absent; counted = d.counted },
      d.members,
      rw d.same_requests (ground arith),
    )

effective-requeue : (r : Request) → effective r requeue ≡ requeue
effective-requeue r = ground arith

requeued :
    (b : Block) (ops : ElevatorOps) (fuel : ℕ) (q : Queue) (rq : Ptr)
    → insert_at b ops fuel (effective (q.request rq) requeue) q rq
      ≡ ok (record (set_softbarrier rq q) { links = list_add rq q.queue_head q.links })
unfolding insert_at
requeued b ops fuel q rq = rw (effective-requeue (q.request rq)) refl

module _ (b : Block) {ops : ElevatorOps} (s : IsScheduler ops) (fuel : ℕ) where
  add_counted :
      (q : Queue) (rq : Ptr) (xs ds : List Ptr)
      → Holds q xs ds
      → q.nr_sorted ≡ length xs + 1
      → rq ∉ (q.sched ∷ xs)
      → rq ∉ (q.queue_head ∷ ds)
      → length xs < fuel
      → Returns
          (λ q'. (us : List Ptr) × (vs : List Ptr) × (us ++ vs ≡ xs) × Counts q' (us ++ rq ∷ vs) ds)
          (ops.add_req_fn fuel q rq)
  add_counted q rq xs ds h n out out' enough =
      let (q', run, after) = s.add_pending fuel q rq xs ds h out out' enough in
      let sum = length-append after.0 (rq ∷ after.1) in
      let sum' = length-append after.0 after.1 in
      let whole = ap length after.2 in
      (
        q',
        run,
        (after.0, after.1, after.2, record { holds = after.3; counted = omega (arith, after.4) }),
      )

  -- `ELEVATOR_INSERT_SORT` on a file system's request that the hash does not know: it becomes
  -- pending, between two parts of the pending requests, and is counted.
  pub insert_sort-Counts :
      (q : Queue) (rq : Ptr) (xs ds : List Ptr)
      → Counts q xs ds
      → (q.request rq).fs ≡ true
      → hashed rq q.table ≡ false
      → rq ∉ (q.sched ∷ xs)
      → rq ∉ (q.queue_head ∷ ds)
      → length xs + 1 < 2 ^ 32
      → length xs < fuel
      → Returns
          (λ q'. (us : List Ptr) × (vs : List Ptr) × (us ++ vs ≡ xs) × Counts q' (us ++ rq ∷ vs) ds)
          (insert_sort b ops fuel q rq)
  unfolding insert_sort elv_rqhash_add rq_mergeable
  insert_sort-Counts q rq xs ds c fs fresh out out' few enough =
      let h = c.holds in
      rw (==-refl rq, fs)
        (elim (Bool-cases (q.request rq).nomerge) [
          | inl e ↦ rw e (
              add_counted _ rq xs ds
                (record { dispatch = h.dispatch; waiting = h.waiting; apart = h.apart })
                (omega (arith, c.counted)) out out' enough)
          | inr e ↦
              rw (e, fresh)
                (add_counted _ rq xs ds
                  (record { dispatch = h.dispatch; waiting = h.waiting; apart = h.apart })
                  (omega (arith, c.counted)) out out' enough)
        ])

  -- `ELEVATOR_INSERT_BACK`: all that was pending is dispatched first, and `rq` comes last, as a
  -- barrier. What the function returns is that queue after `__blk_run_queue`.
  pub insert_back-last :
      (q : Queue) (rq : Ptr) (xs ds : List Ptr)
      → Counts q xs ds
      → rq ∉ (q.sched ∷ xs)
      → rq ∉ (q.queue_head ∷ ds)
      → length xs < 2 ^ 32
      → length xs + length ds < fuel
      → Returns
          (λ q'. (q1 : Queue) × (q' ≡ b.run_queue q1) × LastBarrier rq xs ds q1)
          (insert_back b ops fuel q rq)
  unfolding insert_back
  insert_back-last q rq xs ds c out out' few enough =
      let h = c.holds in
      let (q1, run, d) =
        elv_drain_elevator-Drained s fuel fuel (set_softbarrier rq q) xs ds
          (record { dispatch = h.dispatch; waiting = h.waiting; apart = h.apart }) c.counted few
          (omega arith) enough in
      (_, rw run refl, (_, refl, last_barrier q q1 rq xs ds d out out'))

  -- For a scheduler that keeps the contract, if the insertion point comes out as the back, `rq` is
  -- on neither list, and `nr_sorted` counts the pending requests, fewer than 2^32, then
  -- `__elv_add_request` (with more fuel than requests) returns what `__blk_run_queue` makes of a
  -- queue in which nothing is pending and the dispatch queue ends with `rq`, now a barrier, behind
  -- all that was pending or dispatched.
  pub elv_add_request-back :
      (q : Queue) (rq : Ptr) (place : Where) (xs ds : List Ptr)
      → Counts q xs ds
      → effective (q.request rq) place ≡ back
      → rq ∉ (q.sched ∷ xs)
      → rq ∉ (q.queue_head ∷ ds)
      → length xs < 2 ^ 32
      → length xs + length ds < fuel
      → Returns
          (λ q'. (q1 : Queue) × (q' ≡ b.run_queue q1) × LastBarrier rq xs ds q1)
          (elv_add_request b ops fuel q rq place)
  unfolding elv_add_request
  elv_add_request-back q rq place xs ds c e out out' few enough =
      let h = c.holds in
      rw (e, insert_at)
        (insert_back-last (mark_boundary q rq) rq xs ds
          (record {
            holds = record { dispatch = h.dispatch; waiting = h.waiting; apart = h.apart };
            counted = c.counted;
          })
          out out' few enough)

  -- If `rq` is on neither list and `nr_sorted` counts the pending requests, `elv_requeue_request`
  -- returns, `rq` is the first of the dispatch queue, is a barrier and is not started, and the
  -- other requests stand as before.
  pub elv_requeue_request-front :
      (q : Queue) (rq : Ptr) (xs ds : List Ptr)
      → Counts q xs ds
      → rq ∉ (q.sched ∷ xs)
      → rq ∉ (q.queue_head ∷ ds)
      → Returns
          (λ q'.
            Counts q' xs (rq ∷ ds)
            × ((q'.request rq).softbarrier ≡ true)
            × ((q'.request rq).started ≡ false))
          (elv_requeue_request b ops fuel q rq)
  unfolding elv_requeue_request
  elv_requeue_request-front q rq xs ds c out out' =
      let r = record (q.request rq) { started = false } in
      let q1 = mark_boundary (set_request rq r (elv_completed_request q rq)) rq in
      let h = c.holds in
      (
        record (set_softbarrier rq q1) { links = list_add rq q.queue_head q.links },
        requeued b ops fuel q1 rq,
        (
          record {
            holds =
                dispatch_front (set_softbarrier rq q1) rq xs ds
                  (record { dispatch = h.dispatch; waiting = h.waiting; apart = h.apart }) out out';
            counted = c.counted;
          },
          ground arith,
          ground arith,
        ),
      )
