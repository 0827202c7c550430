-- ===== src/Elevator/Dispatch.antt =====
-- `elv_dispatch_sort` and `elv_dispatch_add_tail` of hw4/elevator.c.
use uth_operating_systems.Base.{
  ℕ, zero, suc, Bool, true, false, ◌||◌, Run, ok, out_of_fuel, ◌>>=◌, ltb, leb, ◌==◌, if◌then◌else◌,
}
use uth_operating_systems.Links.{Ptr, null, list_add, list_add_tail}
use uth_operating_systems.Elevator.{Request, Queue, rq_end_sector, dec32}
use uth_operating_systems.Elevator.Hash.{elv_rqhash_del}

-- `a != b` on flag bits.
abbrev pub differ : Bool → Bool → Bool
differ true b = if b then false else true
differ false b = b

-- The tests of the loop body, in order: does the walk stop at `pos` (`break`), or go on?
unfoldable pub stops : ℕ → Request → Request → Bool
stops boundary rq pos =
    if differ rq.discard pos.discard
    then true
    else if differ rq.write pos.write
    then true
    else if pos.softbarrier || pos.started
    then true
    else if leb boundary rq.sector
    then if ltb pos.sector boundary then false else leb pos.sector rq.sector
    else if leb boundary pos.sector
    then true
    else leb pos.sector rq.sector

-- `list_for_each_prev(entry, &q->queue_head)`: the entry at which the loop ends.
unfoldable pub find_entry : ℕ → Queue → Ptr → Ptr → Run Ptr
find_entry zero q rq entry = out_of_fuel
find_entry (suc fuel) q rq entry =
    let rest = find_entry fuel q rq (q.links.prev entry) in
    if entry == q.queue_head
    then ok entry
    else if stops q.end_sector (q.request rq) (q.request entry)
    then ok entry
    else rest

-- The first statements of both functions: the request leaves the merge cache, the hash and the
-- count of requests that the I/O scheduler holds.
unfoldable pub leave_sorted : Queue → Ptr → Queue
unfolding elv_rqhash_del
leave_sorted q rq =
    let q0 = record q { last_merge = if q.last_merge == rq then null else q.last_merge } in
    let q1 = elv_rqhash_del q0 rq in record q1 { nr_sorted = dec32 q1.nr_sorted }

unfoldable pub elv_dispatch_sort : ℕ → Queue → Ptr → Run Queue
unfolding leave_sorted find_entry stops list_add
elv_dispatch_sort fuel q rq = do
  let q1 = leave_sorted q rq
  entry ← find_entry fuel q1 rq (q1.links.prev q1.queue_head)
  ok (record q1 { links = list_add rq entry q1.links })

unfoldable pub elv_dispatch_add_tail : Queue → Ptr → Queue
unfolding leave_sorted rq_end_sector list_add_tail
elv_dispatch_add_tail q rq =
    let q1 = leave_sorted q rq in
    record q1 {
      end_sector = rq_end_sector q1 rq;
      boundary_rq = rq;
      links = list_add_tail rq q1.queue_head q1.links;
    }
