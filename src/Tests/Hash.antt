-- ===== src/Tests/Hash.antt =====
-- The merge hash at a queue with three entries in one of two buckets: request 1 may not be merged,
-- requests 2 and 3 may, and request 4 is not hashed.
use uth_operating_systems.Base.{
  ℕ, ◌%◌, ◌≡◌, refl, true, false, [], ◌∷◌, Returns, ◌==◌, if◌then◌else◌,
}
use uth_operating_systems.Elevator.{Queue, rq_mergeable, dec32}
use uth_operating_systems.Elevator.Hash.{hashed, rq_hash_key, elv_rqhash_find}
use uth_operating_systems.Elevator.Find.{Appendable}
use uth_operating_systems.Elevator.Merge.{no_merge, Bio, elv_merge, elv_merge_requests}
use uth_operating_systems.Elevator.Joined.{Joined}
use uth_operating_systems.Elevator.Merged.{elv_merge_requests-find}
use uth_operating_systems.Clook.{elevator_clook, clook_merged_requests}
use uth_operating_systems.Tests.Block.{write_at, queue}

abbrev parity : ℕ → ℕ
parity n = n % 2

abbrev hash_queue : Queue
hash_queue = record queue {
  request = λ a.
      if a == 1
      then record (write_at 12) { nomerge = true }
      else if a == 2
      then write_at 32
      else if a == 3
      then write_at 12
      else write_at 40;
  table = (0, 1) ∷ (0, 2) ∷ (0, 3) ∷ [];
}

third : Appendable hash_queue 20 3
unfolding rq_mergeable rq_hash_key
third = record { mergeable = refl; key = refl }

fourth_mergeable : rq_mergeable hash_queue 4 ≡ true
unfolding rq_mergeable
fourth_mergeable = refl

-- Request 1 is taken off the table on the way.
hash_run :
    elv_rqhash_find parity hash_queue 20 ≡ (3, record hash_queue { table = (0, 2) ∷ (0, 3) ∷ [] })
unfolding elv_rqhash_find
hash_run = refl

-- A bio at sector 20 that may join any request.
abbrev bio : Bio
bio = record { sector = 20; merge_ok = λ q rq. true; try_merge = λ q rq. no_merge }

merge_run : (elv_merge parity hash_queue bio).1 ≡ 3
unfolding elv_merge
merge_run = refl

-- Request 3, which is sorted, has been merged into request 2.
abbrev sorted_queue : Queue
sorted_queue = record hash_queue {
  request = λ a. if a == 3 then record (write_at 12) { sorted = true } else hash_queue.request a;
}

untouched :
    ((elevator_clook.merge_req_fn sorted_queue 2 3).request ≡ sorted_queue.request)
    × ((elevator_clook.merge_req_fn sorted_queue 2 3).nr_sorted ≡ sorted_queue.nr_sorted)
unfolding clook_merged_requests
untouched = (refl, refl)

still_mergeable : rq_mergeable sorted_queue 2 ≡ true
unfolding rq_mergeable
still_mergeable = refl

elv_merge_requests-find_example :
    Returns
      (λ q'.
        (q'.last_merge ≡ 2)
        × (elv_rqhash_find parity q' (rq_hash_key sorted_queue 2) ≡ (2, q'))
        × (hashed 3 q'.table ≡ false)
        × (q'.nr_sorted ≡ dec32 sorted_queue.nr_sorted))
      (elv_merge_requests parity elevator_clook sorted_queue 2 3)
elv_merge_requests-find_example =
    elv_merge_requests-find parity elevator_clook sorted_queue 2 3 untouched.0 untouched.1 refl refl
      still_mergeable
