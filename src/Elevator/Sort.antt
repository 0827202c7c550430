-- ===== src/Elevator/Sort.antt =====
-- The walk of `elv_dispatch_sort`, hw4/elevator.c, over the `prev` pointers, and where it ends.
use uth_operating_systems.Base.{
  ℕ, suc, ◌+◌, ◌-◌, ◌<◌, ◌≡◌, ap, Bool, List, [], ◌∷◌, arith, ok, Returns, if◌then◌else◌, length,
  ◌∉◌, last_of, append-nil,
}
use uth_operating_systems.Links.{Ptr, list_add}
use uth_operating_systems.Links.Chain.{Chain, Ring, Chain-next}
use uth_operating_systems.Links.Ops.{list_add-Ring_at}
use uth_operating_systems.Elevator.{Queue}
use uth_operating_systems.Elevator.Dispatch.{stops, find_entry, leave_sorted, elv_dispatch_sort}
use uth_operating_systems.Elevator.Place.{
  any, kept_ahead, overtaken, place, kept_ahead_of_none, kept_ahead-overtaken,
}

-- The test of the walk for a request of the queue.
abbrev pub stop_at : Queue → Ptr → Ptr → Bool
stop_at q rq pos = stops q.end_sector (q.request rq) (q.request pos)

module _ (q : Queue) (rq : Ptr) where
  -- The walk from the last entry of `p ∷ xs`, with fuel for all of `xs` and more.
  find_entry-walk :
      (p : Ptr) (xs : List Ptr) (t : Ptr) (k n : ℕ)
      → n ≡ length xs + k
      → Chain q.links p xs t
      → q.queue_head ∉ xs
      → find_entry n q rq (last_of p xs) ≡ (
          if any (stop_at q rq) xs
          then ok (last_of p (kept_ahead (stop_at q rq) xs))
          else find_entry k q rq p)
  unfolding find_entry
  find_entry-walk p [] t k n e c o = ap (λ f. find_entry f q rq p) (omega arith)
  find_entry-walk p (x ∷ xs) t k n e c o =
      ground (arith, find_entry-walk x xs t (suc k) n (omega arith) c.2 (ground arith))

  -- With more fuel than entries the walk ends at the last entry kept ahead, or at the head.
  find_entry-Ring :
      (xs : List Ptr) (fuel : ℕ)
      → Ring q.links q.queue_head xs
      → length xs < fuel
      → find_entry fuel q rq (q.links.prev q.queue_head)
        ≡ ok (last_of q.queue_head (kept_ahead (stop_at q rq) xs))
  unfolding find_entry
  find_entry-Ring xs fuel r enough =
      let back : q.links.prev q.queue_head ≡ last_of q.queue_head xs =
        (Chain-next q.links q.queue_head xs [] q.queue_head (rw append-nil r.chain)).1 in
      rw back (
        ground (
          arith,
          find_entry-walk q.queue_head xs q.queue_head (suc (fuel - length xs - 1)) fuel
              (omega arith) r.chain r.distinct.0,
          kept_ahead_of_none (stop_at q rq) xs,
        ))

module _ (q : Queue) (rq : Ptr) (xs : List Ptr) (fuel : ℕ) where
  abbrev sorted_entry : Ptr
  sorted_entry = last_of q.queue_head (kept_ahead (stop_at q rq) xs)

  -- The queue that `elv_dispatch_sort` leaves.
  pub elv_dispatch_sort_lem :
      Ring q.links q.queue_head xs
      → length xs < fuel
      → elv_dispatch_sort fuel q rq
        ≡ ok (record (leave_sorted q rq) { links = list_add rq sorted_entry q.links })
  unfolding elv_dispatch_sort
  elv_dispatch_sort_lem r enough = rw (find_entry-Ring (leave_sorted q rq) rq xs fuel r enough)

  -- The dispatch queue becomes `place rq xs`, whatever request it is and however the queue is
  -- ordered; the requests themselves do not change.
  pub elv_dispatch_sort-place :
      Ring q.links q.queue_head xs
      → rq ∉ (q.queue_head ∷ xs)
      → length xs < fuel
      → Returns
          (λ q'. Ring q'.links q.queue_head (place (stop_at q rq) rq xs))
          (elv_dispatch_sort fuel q rq)
  elv_dispatch_sort-place r out enough =
      let whole = kept_ahead-overtaken (stop_at q rq) xs in
      (
        _,
        elv_dispatch_sort_lem r enough,
        list_add-Ring_at rq (kept_ahead (stop_at q rq) xs) (overtaken (stop_at q rq) xs)
            (rw whole r) (rw whole out),
      )
