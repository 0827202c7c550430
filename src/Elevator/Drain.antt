-- ===== src/Elevator/Drain.antt =====
-- `elv_drain_elevator` of hw4/elevator.c over any I/O scheduler that keeps its contract.
use uth_operating_systems.Base.{
  ℕ, zero, suc, ◌+◌, ◌<◌, ◌≡◌, refl, ap, ◌∙◌, Bool, true, false, List, [], ◌∷◌, ◌++◌, arith, Run,
  ok, out_of_fuel, Returns, length, length-append, has, has-append, ◌||◌, ◌^◌,
}
use uth_operating_systems.Links.{Ptr}
use uth_operating_systems.Elevator.{Queue}
use uth_operating_systems.Elevator.Scheduler.{ElevatorOps, IsScheduler, Holds, Dispatched}

-- `while (dispatch_fn(q, 1)) ;`: `rounds` bounds the calls, `fuel` the loops inside each call.
-- The message about a scheduler whose `nr_sorted` is not 0 afterwards is output only.
unfoldable pub elv_drain_elevator : ElevatorOps → ℕ → ℕ → Queue → Run Queue
elv_drain_elevator ops fuel zero q = out_of_fuel
elv_drain_elevator ops fuel (suc rounds) q = elim (ops.dispatch_fn fuel q) [
  | ok (more, q') ↦ elim more [ true ↦ elv_drain_elevator ops fuel rounds q' | false ↦ ok q' ]
  | Run.bug ↦ Run.bug
  | out_of_fuel ↦ out_of_fuel
]

drain_step :
    (ops : ElevatorOps) (fuel rounds : ℕ) (q : Queue) (r : Bool × Queue)
    → ops.dispatch_fn fuel q ≡ ok r
    → r.0 ≡ true
    → elv_drain_elevator ops fuel (suc rounds) q ≡ elv_drain_elevator ops fuel rounds r.1
unfolding elv_drain_elevator
drain_step ops fuel rounds q r e t = rw (e, elv_drain_elevator) (rw t refl)

-- What has become of the requests: all are in the dispatch queue, and none is counted as pending.
pub record Drained (q : Queue) (xs ds : List Ptr) (q' : Queue) : Type 0 where
  pub all : List Ptr
  pub holds : Holds q' [] all
  pub size : length all ≡ length xs + length ds
  pub members : (a : Ptr) → has a all ≡ (has a xs || has a ds)
  pub counted : q'.nr_sorted ≡ 0
  pub same_head : q'.queue_head ≡ q.queue_head
  pub same_sched : q'.sched ≡ q.sched
  pub same_requests : q'.request ≡ q.request

-- A call that dispatches, and then the rest of the loop.
Drained-after :
    {q q1 q' : Queue} {x : Ptr} {xs ds : List Ptr} (d : Dispatched x xs ds q q1)
    → Drained q1 xs (d.front ++ x ∷ d.rear) q'
    → Drained q (x ∷ xs) ds q'
Drained-after {x} d r =
    let sum = length-append d.front d.rear in
    let sum' = length-append d.front (x ∷ d.rear) in
    let whole = ap length d.whole in
    record {
      all = r.all;
      holds = r.holds;
      size = omega (arith, r.size);
      members = λ a. ground (
        arith,
        r.members a,
        has-append a d.front (x ∷ d.rear),
        has-append a d.front d.rear,
        ap (has a) d.whole,
      );
      counted = r.counted;
      same_head = r.same_head ∙ d.same_head;
      same_sched = r.same_sched ∙ d.same_sched;
      same_requests = r.same_requests ∙ d.same_requests;
    }

module _ {ops : ElevatorOps} (s : IsScheduler ops) (fuel : ℕ) where
  -- For a scheduler that keeps the contract, if `nr_sorted` is the number of pending requests,
  -- below 2^32, and there are more rounds than pending requests and more fuel than requests, then
  -- `elv_drain_elevator` returns, all requests are in the dispatch queue and no other is, nothing
  -- is pending, `nr_sorted` is 0, and the requests and the list heads are as before.
  pub elv_drain_elevator-Drained :
      (rounds : ℕ) (q : Queue) (xs ds : List Ptr)
      → Holds q xs ds
      → q.nr_sorted ≡ length xs
      → length xs < 2 ^ 32
      → length xs < rounds
      → length xs + length ds < fuel
      → Returns (Drained q xs ds) (elv_drain_elevator ops fuel rounds q)
  unfolding elv_drain_elevator
  elv_drain_elevator-Drained zero q xs ds h n small enough f = absurd (omega arith)
  elv_drain_elevator-Drained (suc rounds) q [] ds h n small enough f =
      rw (s.dispatch_idle fuel q ds h, elv_drain_elevator)
        (
          q,
          refl,
          record {
            all = ds;
            holds = h;
            size = omega arith;
            members = λ a. refl;
            counted = n;
            same_head = refl;
            same_sched = refl;
            same_requests = refl;
          },
        )
  elv_drain_elevator-Drained (suc rounds) q (x ∷ xs) ds h n small enough f =
      let step = s.dispatch_first fuel q x xs ds h (omega arith) in
      let d = step.2.1 in
      let sum = length-append d.front d.rear in
      let whole = ap length d.whole in
      let sum' = length-append d.front (x ∷ d.rear) in
      let rest =
        elv_drain_elevator-Drained rounds step.0.1 xs (d.front ++ x ∷ d.rear) d.holds
          (omega (arith, d.counted)) (omega arith) (omega arith) (omega arith) in
      rw (drain_step ops fuel rounds q step.0 step.1 step.2.0)
        (rest.0, rest.1, Drained-after d rest.2)
