-- ===== src/Noop/Laws.antt =====
-- The contract of an I/O scheduler for hw1/module/project1-iosched.c, and the rest of its functions.
use uth_operating_systems.Base.{
  ℕ, ◌<◌, ◌≡◌, ◌≢◌, refl, subst, true, false, List, [], ◌∷◌, ◌++◌, arith, ok, bug, Returns,
  if◌then◌else◌, length, ◌∉◌, is_nil, last_of, first_of_list, has-append, append-nil, ==-ne,
}
use uth_operating_systems.Links.{Ptr, null, init_list_head}
use uth_operating_systems.Links.Chain.{Ring, Chain-neighbours, last_of-head, first_of_list-head}
use uth_operating_systems.Links.Ops.{list_empty-Ring, init_list_head-Ring}
use uth_operating_systems.Elevator.{Queue}
use uth_operating_systems.Elevator.Scheduler.{IsScheduler, Holds, Dispatched}
use uth_operating_systems.Elevator.Move.{move_first, del_at, add_at}
use uth_operating_systems.Noop.{
  team42_noop_dispatch, team42_noop_add_request, team42_noop_merged_requests, noop_former_request,
  noop_latter_request, team42_noop_init_queue, team42_noop_exit_queue, elevator_noop,
}

noop_idle :
    (fuel : ℕ) (q : Queue) (ds : List Ptr)
    → Holds q [] ds
    → team42_noop_dispatch fuel q ≡ ok (false, q)
unfolding team42_noop_dispatch
noop_idle fuel q ds h = rw (list_empty-Ring [] h.waiting) refl

-- The request that has waited longest goes to the dispatch queue; the answer is 1.
pub team42_noop_dispatch-first :
    (fuel : ℕ) (q : Queue) (x : Ptr) (xs ds : List Ptr)
    → Holds q (x ∷ xs) ds
    → length ds < fuel
    → Returns (λ r. (r.0 ≡ true) × Dispatched x xs ds q r.1) (team42_noop_dispatch fuel q)
unfolding team42_noop_dispatch
team42_noop_dispatch-first fuel q x xs ds h enough =
    let (q', run, moved) = move_first fuel q x xs ds h enough in
    (
      (true, q'),
      rw (list_empty-Ring (x ∷ xs) h.waiting, h.waiting.chain.0, run) refl,
      (refl, moved),
    )

-- A new request is the last.
pub team42_noop_add_request-Holds :
    (q : Queue) (rq : Ptr) (xs ds : List Ptr)
    → Holds q xs ds
    → rq ∉ (q.sched ∷ xs)
    → rq ∉ (q.queue_head ∷ ds)
    → Holds (team42_noop_add_request q rq) (xs ++ rq ∷ []) ds
unfolding team42_noop_add_request
team42_noop_add_request-Holds q rq xs ds h out out' =
    add_at q rq xs [] ds (rw append-nil h) (rw append-nil out) out'

-- The functions of the team's no-op scheduler keep the same contract of an I/O scheduler.
pub elevator_noop-IsScheduler : IsScheduler elevator_noop
unfolding team42_noop_add_request
elevator_noop-IsScheduler = record {
  dispatch_idle = noop_idle;
  dispatch_first = team42_noop_dispatch-first;
  add_pending = λ fuel q rq xs ds h out out' enough. (
    team42_noop_add_request q rq,
    refl,
    (xs, [], append-nil xs, team42_noop_add_request-Holds q rq xs ds h out out', refl),
  );
}

-- What waits behind the first of `xs ++ rq ∷ []`.
abbrev pub waiting_after : Ptr → List Ptr → List Ptr
waiting_after rq [] = []
waiting_after rq (x ∷ xs) = xs ++ rq ∷ []

first-waiting :
    (rq : Ptr) (xs : List Ptr) → xs ++ rq ∷ [] ≡ first_of_list xs rq ∷ waiting_after rq xs
first-waiting rq [] = refl
first-waiting rq (x ∷ xs) = refl

-- After `team42_noop_add_request` of a request that is on neither list, `team42_noop_dispatch`
-- (with more fuel than dispatched requests) returns 1 and moves the request that was first to the
-- dispatch queue, or the new one if none was pending; the rest waits in its old order with the new
-- request last.
pub team42_noop_fifo :
    (fuel : ℕ) (q : Queue) (rq : Ptr) (xs ds : List Ptr)
    → Holds q xs ds
    → rq ∉ (q.sched ∷ xs)
    → rq ∉ (q.queue_head ∷ ds)
    → length ds < fuel
    → Returns
        (λ r.
          (r.0 ≡ true)
          × Dispatched
              (first_of_list xs rq)
              (waiting_after rq xs)
              ds
              (team42_noop_add_request q rq)
              r.1)
        (team42_noop_dispatch fuel (team42_noop_add_request q rq))
team42_noop_fifo fuel q rq xs ds h out out' enough =
    team42_noop_dispatch-first fuel (team42_noop_add_request q rq) (first_of_list xs rq)
      (waiting_after rq xs) ds
      (subst (λ l. Holds (team42_noop_add_request q rq) l ds) (first-waiting rq xs)
        (team42_noop_add_request-Holds q rq xs ds h out out'))
      enough

pub noop_neighbours :
    (q : Queue) (us vs : List Ptr) (x : Ptr)
    → Ring q.links q.sched (us ++ x ∷ vs)
    → (noop_former_request q x ≡ (if is_nil us then null else last_of q.sched us))
      × (noop_latter_request q x ≡ (if is_nil vs then null else first_of_list vs q.sched))
unfolding noop_former_request noop_latter_request
noop_neighbours q us vs x r =
    let e = Chain-neighbours q.links q.sched us x vs q.sched r.chain in
    let apart = has-append q.sched us (x ∷ vs) in
    let apart' = has-append q.sched us vs in
    (
      rw (e.0) (last_of-head q.sched null us (x ∷ vs) r.distinct.0),
      rw (e.1) (first_of_list-head q.sched null us vs (ground (arith, r.distinct))),
    )

pub team42_noop_merged_requests-Holds :
    (q : Queue) (rq next : Ptr) (us vs ds : List Ptr)
    → Holds q (us ++ next ∷ vs) ds
    → Holds (team42_noop_merged_requests q rq next) (us ++ vs) ds
unfolding team42_noop_merged_requests
team42_noop_merged_requests-Holds q rq next us vs ds h = del_at q next us vs ds h

pub team42_noop_exit_queue-Ring :
    (q : Queue) (xs : List Ptr)
    → Ring q.links q.sched xs
    → team42_noop_exit_queue q
      ≡ (if is_nil xs then ok (record q { released = q.sched ∷ q.released }) else bug)
unfolding team42_noop_exit_queue
team42_noop_exit_queue-Ring q xs r = rw (list_empty-Ring xs r) refl

-- If both allocations of `team42_noop_init_queue` succeed, it answers 0, and
-- `team42_noop_exit_queue` of the result returns, with the new elevator set and the scheduler's
-- data freed.
pub team42_noop_init_queue-exit :
    (eq nd : Ptr) (q : Queue)
    → eq ≢ null
    → nd ≢ null
    → ((team42_noop_init_queue eq nd q).0 ≡ false)
      × Returns
          (λ q'. (q'.elevator ≡ eq) × (q'.released ≡ nd ∷ q.released))
          (team42_noop_exit_queue (team42_noop_init_queue eq nd q).1)
unfolding team42_noop_init_queue
team42_noop_init_queue-exit eq nd q he hn =
    let q1 = record q { sched = nd; links = init_list_head nd q.links; elevator = eq } in
    rw (==-ne eq null he, ==-ne nd null hn)
      (
        refl,
        (
          record q1 { released = nd ∷ q.released },
          team42_noop_exit_queue-Ring q1 [] (init_list_head-Ring nd q.links),
          (refl, refl),
        ),
      )
