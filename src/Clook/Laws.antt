-- ===== src/Clook/Laws.antt =====
-- The contract of an I/O scheduler for hw4/clook-iosched.c, and the rest of its functions.
use uth_operating_systems.Base.{
  ℕ, ◌<◌, ◌≡◌, ◌≢◌, refl, true, false, List, [], ◌∷◌, ◌++◌, arith, ok, bug, Returns, if◌then◌else◌,
  length, is_nil, last_of, first_of_list, has-append, ==-ne,
}
use uth_operating_systems.Links.{Ptr, null, init_list_head}
use uth_operating_systems.Links.Chain.{Ring, Chain-neighbours, last_of-head, first_of_list-head}
use uth_operating_systems.Links.Ops.{list_empty-Ring, init_list_head-Ring}
use uth_operating_systems.Elevator.{Queue}
use uth_operating_systems.Elevator.Scheduler.{IsScheduler, Holds, Dispatched}
use uth_operating_systems.Elevator.Move.{move_first, del_at}
use uth_operating_systems.Clook.{
  clook_dispatch, clook_former_request, clook_latter_request, clook_init_queue, clook_exit_queue,
  clook_merged_requests, done, no_memory, elevator_clook,
}
use uth_operating_systems.Clook.Insert.{ahead, behind, up_to-beyond, clook_add_request-Holds}
use uth_operating_systems.Elevator.{rq_end_sector}

-- An empty list is left alone, and the answer is 0.
pub clook_dispatch-idle :
    (fuel : ℕ) (q : Queue) (ds : List Ptr) → Holds q [] ds → clook_dispatch fuel q ≡ ok (false, q)
unfolding clook_dispatch
clook_dispatch-idle fuel q ds h = rw (list_empty-Ring [] h.waiting) refl

-- The first pending request, the one that ends first, goes to the dispatch queue; the answer is 1.
pub clook_dispatch-first :
    (fuel : ℕ) (q : Queue) (x : Ptr) (xs ds : List Ptr)
    → Holds q (x ∷ xs) ds
    → length ds < fuel
    → Returns (λ r. (r.0 ≡ true) × Dispatched x xs ds q r.1) (clook_dispatch fuel q)
unfolding clook_dispatch
clook_dispatch-first fuel q x xs ds h enough =
    let (q', run, moved) = move_first fuel q x xs ds h enough in
    (
      (true, q'),
      rw (list_empty-Ring (x ∷ xs) h.waiting, h.waiting.chain.0, run) refl,
      (refl, moved),
    )

pub elevator_clook-IsScheduler : IsScheduler elevator_clook
elevator_clook-IsScheduler = record {
  dispatch_idle = clook_dispatch-idle;
  dispatch_first = clook_dispatch-first;
  add_pending = λ fuel q rq xs ds h out out' enough.
      let (q', run, after) = clook_add_request-Holds q rq xs ds fuel h out out' enough in
      (
        q',
        run,
        (
          ahead q rq xs,
          behind q rq xs,
          up_to-beyond (rq_end_sector q) (rq_end_sector q rq) xs,
          after.0,
          after.1,
        ),
      );
}

-- For a request on the scheduler's list, `clook_former_request` returns the one before it and
-- `clook_latter_request` the one behind it, and `NULL` where there is none.
pub clook_neighbours :
    (q : Queue) (us vs : List Ptr) (x : Ptr)
    → Ring q.links q.sched (us ++ x ∷ vs)
    → (clook_former_request q x ≡ (if is_nil us then null else last_of q.sched us))
      × (clook_latter_request q x ≡ (if is_nil vs then null else first_of_list vs q.sched))
unfolding clook_former_request clook_latter_request
clook_neighbours q us vs x r =
    let e = Chain-neighbours q.links q.sched us x vs q.sched r.chain in
    (
      rw (e.0) (last_of-head q.sched null us (x ∷ vs) r.distinct.0),
      rw (e.1) (
          first_of_list-head q.sched null us vs
            (ground (arith, has-append q.sched us (x ∷ vs), has-append q.sched us vs, r.distinct))),
    )

-- If `next` is pending, then after `clook_merged_requests` it is not, and all else stands as before
-- on both lists.
pub clook_merged_requests-Holds :
    (q : Queue) (rq next : Ptr) (us vs ds : List Ptr)
    → Holds q (us ++ next ∷ vs) ds
    → Holds (clook_merged_requests q rq next) (us ++ vs) ds
unfolding clook_merged_requests
clook_merged_requests-Holds q rq next us vs ds h = del_at q next us vs ds h

-- If the scheduler's list holds the requests `xs`, `clook_exit_queue` frees the scheduler's data
-- when `xs` is empty and is a `BUG` when it is not.
pub clook_exit_queue-Ring :
    (q : Queue) (xs : List Ptr)
    → Ring q.links q.sched xs
    → clook_exit_queue q
      ≡ (if is_nil xs then ok (record q { released = q.sched ∷ q.released }) else bug)
unfolding clook_exit_queue
clook_exit_queue-Ring q xs r = rw (list_empty-Ring xs r) refl

-- If both allocations of `clook_init_queue` succeed, it answers 0 and the scheduler's list is
-- empty, and `clook_exit_queue` of the result returns, with the new elevator set and the
-- scheduler's data freed.
pub clook_init_queue-exit :
    (eq nd : Ptr) (q : Queue)
    → eq ≢ null
    → nd ≢ null
    → ((clook_init_queue eq nd q).0 ≡ done)
      × Ring (clook_init_queue eq nd q).1.links nd []
      × Returns
          (λ q'. (q'.elevator ≡ eq) × (q'.released ≡ nd ∷ q.released))
          (clook_exit_queue (clook_init_queue eq nd q).1)
unfolding clook_init_queue
clook_init_queue-exit eq nd q he hn =
    let q1 = record q { sched = nd; links = init_list_head nd q.links; elevator = eq } in
    rw (==-ne eq null he, ==-ne nd null hn)
      (
        refl,
        init_list_head-Ring nd q.links,
        (
          record q1 { released = nd ∷ q.released },
          clook_exit_queue-Ring q1 [] (init_list_head-Ring nd q.links),
          (refl, refl),
        ),
      )

-- If the second allocation fails, the first is given back and nothing else changes.
pub clook_init_queue-no_memory :
    (eq : Ptr) (q : Queue)
    → eq ≢ null
    → clook_init_queue eq null q ≡ (no_memory, record q { released = eq ∷ q.released })
unfolding clook_init_queue
clook_init_queue-no_memory eq q he = rw (==-ne eq null he) refl
