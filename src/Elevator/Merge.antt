-- ===== src/Elevator/Merge.antt =====
-- Merging, hw4/elevator.c: `elv_merge` looks for a request that a bio can join, and
-- `elv_merged_request` and `elv_merge_requests` bring the queue up to date after a merge.
use uth_operating_systems.Base.{
  ℕ, Bool, true, false, ◌&&◌, not, Run, ok, ◌>>=◌, ◌==◌, if◌then◌else◌,
}
use uth_operating_systems.Links.{Ptr, null}
use uth_operating_systems.Elevator.{Queue, dec32}
use uth_operating_systems.Elevator.Hash.{elv_rqhash_del, elv_rqhash_reposition, elv_rqhash_find}
use uth_operating_systems.Elevator.Scheduler.{ElevatorOps}

-- `ELEVATOR_NO_MERGE`, `ELEVATOR_FRONT_MERGE`, `ELEVATOR_BACK_MERGE`
pub data MergeType : Type 0 where
  no_merge front_merge back_merge : MergeType

abbrev pub is_no_merge : MergeType → Bool
is_no_merge no_merge = true
is_no_merge _ = false

abbrev pub is_back_merge : MergeType → Bool
is_back_merge back_merge = true
is_back_merge _ = false

-- `blk_rq_merge_ok` and `blk_try_merge` of the block layer, for one bio, and its first sector.
pub record Bio : Type 0 where
  pub sector : ℕ
  pub merge_ok : Queue → Ptr → Bool
  pub try_merge : Queue → Ptr → MergeType

module _ (bucket : ℕ → ℕ) where
  -- `elv_merge`: the kind of merge, the request (`*req`, `NULL` where it is not set), and the queue.
  -- No scheduler of the repository sets `elevator_allow_merge_fn` or `elevator_merge_fn`.
  unfoldable pub elv_merge : Queue → Bio → MergeType × Ptr × Queue
  unfolding elv_rqhash_find
  elv_merge q bio =
      let ret = bio.try_merge q q.last_merge in
      let found = elv_rqhash_find bucket q bio.sector in
      if q.nomerges
      then (no_merge, null, q)
      else if not (q.last_merge == null) && bio.merge_ok q q.last_merge && not (is_no_merge ret)
      then (ret, q.last_merge, q)
      else if q.noxmerges
      then (no_merge, null, q)
      else if not (found.0 == null) && bio.merge_ok found.1 found.0
      then (back_merge, found.0, found.1)
      else (no_merge, null, found.1)

  -- `elv_merged_request`: a request that grew at its end has a new hash key.
  unfoldable pub elv_merged_request : Queue → Ptr → MergeType → Run Queue
  unfolding elv_rqhash_reposition
  elv_merged_request q rq type = do
    q1 ← (if is_back_merge type then elv_rqhash_reposition bucket q rq else ok q)
    ok (record q1 { last_merge = rq })

  -- `elv_merge_requests`: `next` has been merged into `rq`.
  unfoldable pub elv_merge_requests : ElevatorOps → Queue → Ptr → Ptr → Run Queue
  unfolding elv_rqhash_reposition elv_rqhash_del
  elv_merge_requests ops q rq next = do
    let next_sorted = (q.request next).sorted
    q1 ← elv_rqhash_reposition bucket (if next_sorted then ops.merge_req_fn q rq next else q) rq
    let q2 =
        if next_sorted
        then record (elv_rqhash_del q1 next) { nr_sorted = dec32 q1.nr_sorted }
        else q1
    ok (record q2 { last_merge = rq })
