-- ===== src/Elevator/Move.antt =====
-- The step that both I/O schedulers take to dispatch: `list_del_init` on the first pending request,
-- and `elv_dispatch_sort` on it. And the step that they take to add one: `list_add_tail` somewhere.
use uth_operating_systems.Base.{
  ℕ, ◌<◌, ◌≡◌, ◌≢◌, refl, ap, true, List, [], ◌∷◌, ◌++◌, arith, Returns, length, has, ◌∉◌,
  has-append, last_of, first_of_list, append-nil,
}
use uth_operating_systems.Links.{Ptr, Links, list_del_init, list_add, list_add_tail, init_list_head}
use uth_operating_systems.Links.Chain.{Ring, Chain-next}
use uth_operating_systems.Links.Ops.{
  Ring-frame, list_del_init-Ring, list_add_tail-Ring_at, list_add-Ring_at, bridge-other,
  insert_between-other,
}
use uth_operating_systems.Elevator.{Queue}
use uth_operating_systems.Elevator.Dispatch.{elv_dispatch_sort, leave_sorted}
use uth_operating_systems.Elevator.Place.{kept_ahead, overtaken, kept_ahead-overtaken}
use uth_operating_systems.Elevator.Sort.{stop_at, elv_dispatch_sort_lem}
use uth_operating_systems.Elevator.Scheduler.{Holds, Dispatched}

module _ {m : Links} {h : Ptr} where
  list_del_init-other :
      (us : List Ptr) (x : Ptr) (vs : List Ptr) (a : Ptr)
      → Ring m h (us ++ x ∷ vs)
      → a ∉ (h ∷ (us ++ x ∷ vs))
      → ((list_del_init x m).next a ≡ m.next a) × ((list_del_init x m).prev a ≡ m.prev a)
  unfolding list_del_init init_list_head
  list_del_init-other us x vs a r o =
      let b = bridge-other us x vs a r o in
      let n = has-append a us (x ∷ vs) in (ground arith, ground arith)

  list_add-other :
      (new : Ptr) (us vs : List Ptr) (a : Ptr)
      → Ring m h (us ++ vs)
      → a ∉ (h ∷ (us ++ vs))
      → a ≢ new
      → ((list_add new (last_of h us) m).next a ≡ m.next a)
        × ((list_add new (last_of h us) m).prev a ≡ m.prev a)
  unfolding list_add
  list_add-other new us vs a r o n =
      rw ((Chain-next m h us vs h r.chain).0) (insert_between-other m h new us vs a o n)

  list_add_tail-other :
      (new : Ptr) (us vs : List Ptr) (a : Ptr)
      → Ring m h (us ++ vs)
      → a ∉ (h ∷ (us ++ vs))
      → a ≢ new
      → ((list_add_tail new (first_of_list vs h) m).next a ≡ m.next a)
        × ((list_add_tail new (first_of_list vs h) m).prev a ≡ m.prev a)
  unfolding list_add_tail
  list_add_tail-other new us vs a r o n =
      rw ((Chain-next m h us vs h r.chain).1) (insert_between-other m h new us vs a o n)

pub apart-symm :
    {q : Queue} {xs ds : List Ptr} (h : Holds q xs ds) (a : Ptr)
    → has a (q.sched ∷ xs) ≡ true
    → a ∉ (q.queue_head ∷ ds)
apart-symm h a i = ground (arith, h.apart a)

module _ (fuel : ℕ) (q : Queue) (x : Ptr) (xs ds : List Ptr) (h : Holds q (x ∷ xs) ds) where
  abbrev taken : Queue
  taken = record q { links = list_del_init x q.links }

  x_waits : x ∉ (q.queue_head ∷ ds)
  x_waits = apart-symm h x (ground arith)

  dispatch-Ring : Ring taken.links q.queue_head ds
  dispatch-Ring =
      Ring-frame _ h.dispatch (λ a i. list_del_init-other [] x xs a h.waiting (h.apart a i))

  pub move_first :
      length ds < fuel → Returns (Dispatched x xs ds q) (elv_dispatch_sort fuel taken x)
  unfolding leave_sorted
  move_first enough =
      let us = kept_ahead (stop_at taken x) ds in
      let vs = overtaken (stop_at taken x) ds in
      let whole : us ++ vs ≡ ds = kept_ahead-overtaken (stop_at taken x) ds in
      let ring : Ring taken.links q.queue_head (us ++ vs) = rw whole dispatch-Ring in
      let gone = list_del_init-Ring [] x xs h.waiting in
      (
        _,
        elv_dispatch_sort_lem taken x ds fuel dispatch-Ring enough,
        record {
          front = us;
          rear = vs;
          whole = whole;
          holds = record {
            dispatch = list_add-Ring_at x us vs ring (rw whole x_waits);
            waiting = Ring-frame _ gone.0 (λ a i.
                list_add-other x us vs a ring (rw whole (apart-symm h a (ground arith)))
                  (ground (arith, h.waiting.distinct)));
            apart = λ a i. ground (
              arith,
              has-append a us (x ∷ vs),
              has-append a us vs,
              ap (has a) whole,
              h.apart a,
              h.waiting.distinct,
            );
          };
          counted = refl;
          same_head = refl;
          same_sched = refl;
          same_requests = refl;
        },
      )

-- `list_add_tail` at a place of the scheduler's list.
pub add_at :
    (q : Queue) (rq : Ptr) (us vs ds : List Ptr)
    → Holds q (us ++ vs) ds
    → rq ∉ (q.sched ∷ (us ++ vs))
    → rq ∉ (q.queue_head ∷ ds)
    → Holds
        (record q { links = list_add_tail rq (first_of_list vs q.sched) q.links })
        (us ++ rq ∷ vs)
        ds
add_at q rq us vs ds h out out' = record {
  dispatch =
      Ring-frame _ h.dispatch
        (λ a i. list_add_tail-other rq us vs a h.waiting (h.apart a i) (ground arith));
  waiting = list_add_tail-Ring_at rq us vs h.waiting out;
  apart = λ a i. ground (arith, has-append a us (rq ∷ vs), has-append a us vs, h.apart a);
}

-- `list_del_init` on an entry of the scheduler's list.
pub del_at :
    (q : Queue) (x : Ptr) (us vs ds : List Ptr)
    → Holds q (us ++ x ∷ vs) ds
    → Holds (record q { links = list_del_init x q.links }) (us ++ vs) ds
del_at q x us vs ds h = record {
  dispatch = Ring-frame _ h.dispatch (λ a i. list_del_init-other us x vs a h.waiting (h.apart a i));
  waiting = (list_del_init-Ring us x vs h.waiting).0;
  apart = λ a i. ground (arith, has-append a us (x ∷ vs), has-append a us vs, h.apart a);
}

-- `list_add_tail` on the dispatch queue, and `list_add` on it.
module _ (q : Queue) (rq : Ptr) (xs ds : List Ptr) (h : Holds q xs ds) where
  pub dispatch_last :
      rq ∉ (q.sched ∷ xs)
      → rq ∉ (q.queue_head ∷ ds)
      → Holds (record q { links = list_add_tail rq q.queue_head q.links }) xs (ds ++ rq ∷ [])
  dispatch_last out out' =
      let r : Ring q.links q.queue_head (ds ++ []) = rw append-nil h.dispatch in
      record {
        dispatch = list_add_tail-Ring_at rq ds [] r (rw append-nil out');
        waiting = Ring-frame _ h.waiting (λ a i.
            list_add_tail-other rq ds [] a r (rw append-nil (apart-symm h a i)) (ground arith));
        apart = λ a i. ground (arith, has-append a ds (rq ∷ []), h.apart a);
      }

  pub dispatch_front :
      rq ∉ (q.sched ∷ xs)
      → rq ∉ (q.queue_head ∷ ds)
      → Holds (record q { links = list_add rq q.queue_head q.links }) xs (rq ∷ ds)
  dispatch_front out out' = record {
    dispatch = list_add-Ring_at rq [] ds h.dispatch out';
    waiting =
        Ring-frame _ h.waiting
          (λ a i. list_add-other rq [] ds a h.dispatch (apart-symm h a i) (ground arith));
    apart = λ a i. ground (arith, h.apart a);
  }
