-- ===== src/Clook/Insert.antt =====
-- The place that `clook_add_request` of hw4/clook-iosched.c finds in the scheduler's list.
use uth_operating_systems.Base.{
  ℕ, zero, suc, ◌<◌, ◌≤◌, ◌≡◌, refl, List, [], ◌∷◌, ◌++◌, arith, ok, Returns, ltb, if◌then◌else◌,
  length, ◌∉◌, first_of_list, All, Bool-cases, inl, inr,
}
use uth_operating_systems.Links.{Ptr, list_add_tail}
use uth_operating_systems.Links.Chain.{Chain, Ring}
use uth_operating_systems.Elevator.{Queue, rq_end_sector}
use uth_operating_systems.Elevator.Order.{Ascending}
use uth_operating_systems.Elevator.Scheduler.{Holds}
use uth_operating_systems.Elevator.Move.{add_at}
use uth_operating_systems.Clook.{find_place, clook_add_request}

-- The requests that end no later than `e`, up to the first that does not, and the rest.
module _ (key : Ptr → ℕ) (e : ℕ) where
  abbrev pub up_to : List Ptr → List Ptr
  up_to [] = []
  up_to (x ∷ xs) = if ltb e (key x) then [] else x ∷ up_to xs

  abbrev pub beyond : List Ptr → List Ptr
  beyond [] = []
  beyond (x ∷ xs) = if ltb e (key x) then x ∷ xs else beyond xs

  pub up_to-beyond : (xs : List Ptr) → up_to xs ++ beyond xs ≡ xs
  up_to-beyond [] = refl
  up_to-beyond (x ∷ xs) = ground (arith, up_to-beyond xs)

module _ (key : Ptr → ℕ) (rq : Ptr) where
  insert_All :
      (k : ℕ) (xs : List Ptr)
      → All (λ y. k ≤ key y) xs
      → k ≤ key rq
      → All (λ y. k ≤ key y) (up_to key (key rq) xs ++ rq ∷ beyond key (key rq) xs)
  insert_All k [] a h = (h, tt)
  insert_All k (x ∷ xs) a h = elim (Bool-cases (ltb (key rq) (key x))) [
    | inl e ↦ rw e (h, a)
    | inr e ↦ rw e (a.0, insert_All k xs a.1 h)
  ]

  weaken : (j k : ℕ) (xs : List Ptr) → All (λ y. k ≤ key y) xs → j ≤ k → All (λ y. j ≤ key y) xs
  weaken j k [] a h = tt
  weaken j k (x ∷ xs) a h = (omega arith, weaken j k xs a.1 h)

  pub insert-Ascending :
      (xs : List Ptr)
      → Ascending key xs
      → Ascending key (up_to key (key rq) xs ++ rq ∷ beyond key (key rq) xs)
  insert-Ascending [] a = (tt, tt)
  insert-Ascending (x ∷ xs) a = elim (Bool-cases (ltb (key rq) (key x))) [
    | inl e ↦ rw e ((ground arith, weaken (key rq) (key x) xs a.0 (ground arith)), a)
    | inr e ↦ rw e (insert_All (key x) xs a.0 (ground arith), insert-Ascending xs a.1)
  ]

module _ (q : Queue) (rq : Ptr) where
  find_place-walk :
      (p : Ptr) (xs : List Ptr) (fuel : ℕ)
      → Chain q.links p xs q.sched
      → q.sched ∉ xs
      → length xs < fuel
      → find_place fuel q rq (q.links.next p)
        ≡ ok (first_of_list (beyond (rq_end_sector q) (rq_end_sector q rq) xs) q.sched)
  unfolding find_place
  find_place-walk p xs zero c o f = absurd (omega arith)
  find_place-walk p [] (suc fuel) c o f = ground arith
  find_place-walk p (x ∷ xs) (suc fuel) c o f =
      ground (arith, find_place-walk x xs fuel c.2 (ground arith) (omega arith))

  abbrev pub ahead : List Ptr → List Ptr
  ahead = up_to (rq_end_sector q) (rq_end_sector q rq)

  abbrev pub behind : List Ptr → List Ptr
  behind = beyond (rq_end_sector q) (rq_end_sector q rq)

  pub clook_add_request_lem :
      (xs : List Ptr) (fuel : ℕ)
      → Ring q.links q.sched xs
      → length xs < fuel
      → clook_add_request fuel q rq
        ≡ ok (record q { links = list_add_tail rq (first_of_list (behind xs) q.sched) q.links })
  unfolding clook_add_request
  clook_add_request_lem xs fuel r f = rw (find_place-walk q.sched xs fuel r.chain r.distinct.0 f)

  pub clook_add_request-Holds :
      (xs ds : List Ptr) (fuel : ℕ)
      → Holds q xs ds
      → rq ∉ (q.sched ∷ xs)
      → rq ∉ (q.queue_head ∷ ds)
      → length xs < fuel
      → Returns
          (λ q'. Holds q' (ahead xs ++ rq ∷ behind xs) ds × (q'.nr_sorted ≡ q.nr_sorted))
          (clook_add_request fuel q rq)
  clook_add_request-Holds xs ds fuel h out out' f =
      let whole = up_to-beyond (rq_end_sector q) (rq_end_sector q rq) xs in
      (
        _,
        clook_add_request_lem xs fuel h.waiting f,
        (add_at q rq (ahead xs) (behind xs) ds (rw whole h) (rw whole out) out', refl),
      )

  -- If the scheduler's list is in ascending order of the sectors at which its requests end, and the
  -- new request is on neither list, then `clook_add_request` (with more fuel than requests on that
  -- list) returns, puts the request between two parts of the list, leaves the list in that order,
  -- and leaves the dispatch queue as it was.
  pub clook_add_request-Ascending :
      (xs ds : List Ptr) (fuel : ℕ)
      → Holds q xs ds
      → rq ∉ (q.sched ∷ xs)
      → rq ∉ (q.queue_head ∷ ds)
      → length xs < fuel
      → Ascending (rq_end_sector q) xs
      → Returns
          (λ q'.
            (us : List Ptr) × (vs : List Ptr) × (us ++ vs ≡ xs)
            × Holds q' (us ++ rq ∷ vs) ds
            × Ascending (rq_end_sector q') (us ++ rq ∷ vs))
          (clook_add_request fuel q rq)
  unfolding rq_end_sector
  clook_add_request-Ascending xs ds fuel h out out' f a =
      let whole = up_to-beyond (rq_end_sector q) (rq_end_sector q rq) xs in
      (
        _,
        clook_add_request_lem xs fuel h.waiting f,
        (
          ahead xs,
          behind xs,
          whole,
          add_at q rq (ahead xs) (behind xs) ds (rw whole h) (rw whole out) out',
          insert-Ascending (rq_end_sector q) rq xs a,
        ),
      )
