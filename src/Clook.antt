-- ===== src/Clook.antt =====
-- The C-LOOK I/O scheduler, hw4/clook-iosched.c. `struct clook_data` is its list head, `q.sched`.
-- The messages that two functions print are output only.
pub mod Insert
pub mod Laws
use uth_operating_systems.Base.{
  ℕ, zero, suc, Bool, true, false, List, ◌∷◌, Run, ok, bug, out_of_fuel, ◌>>=◌, ltb, ◌==◌,
  if◌then◌else◌,
}
use uth_operating_systems.Links.{
  Ptr, null, list_add_tail, list_del_init, list_empty, init_list_head,
}
use uth_operating_systems.Elevator.{Queue, rq_end_sector}
use uth_operating_systems.Elevator.Dispatch.{elv_dispatch_sort}
use uth_operating_systems.Elevator.Scheduler.{ElevatorOps}

unfoldable pub clook_merged_requests : Queue → Ptr → Ptr → Queue
clook_merged_requests q rq next = record q { links = list_del_init next q.links }

unfoldable pub clook_dispatch : ℕ → Queue → Run (Bool × Queue)
clook_dispatch fuel q = if list_empty q.sched q.links then ok (false, q) else do
  let rq = q.links.next q.sched
  q' ← elv_dispatch_sort fuel (record q { links = list_del_init rq q.links }) rq
  ok (true, q')

-- `list_for_each(cur_rq, &nd->queue)`: the entry at which the loop ends.
unfoldable pub find_place : ℕ → Queue → Ptr → Ptr → Run Ptr
find_place zero q rq cur = out_of_fuel
find_place (suc fuel) q rq cur =
    let rest = find_place fuel q rq (q.links.next cur) in
    if cur == q.sched
    then ok cur
    else if ltb (rq_end_sector q rq) (rq_end_sector q cur)
    then ok cur
    else rest

unfoldable pub clook_add_request : ℕ → Queue → Ptr → Run Queue
unfolding find_place
clook_add_request fuel q rq = do
  cur_rq ← find_place fuel q rq (q.links.next q.sched)
  ok (record q { links = list_add_tail rq cur_rq q.links })

-- `NULL` if the request is the first; else the request before it.
unfoldable pub clook_former_request : Queue → Ptr → Ptr
clook_former_request q rq = if q.links.prev rq == q.sched then null else q.links.prev rq

unfoldable pub clook_latter_request : Queue → Ptr → Ptr
clook_latter_request q rq = if q.links.next rq == q.sched then null else q.links.next rq

-- 0, or `-ENOMEM`.
pub data InitStatus : Type 0 where
  done no_memory : InitStatus

-- `eq` and `nd` are what `elevator_alloc` and `kmalloc_node` return.
unfoldable pub clook_init_queue : (eq nd : Ptr) → Queue → InitStatus × Queue
clook_init_queue eq nd q =
    if eq == null
    then (no_memory, q)
    else if nd == null
    then (no_memory, record q { released = eq ∷ q.released })
    else (done, record q { sched = nd; links = init_list_head nd q.links; elevator = eq })

-- `BUG_ON(!list_empty(&nd->queue))`, and `kfree(nd)`.
unfoldable pub clook_exit_queue : Queue → Run Queue
clook_exit_queue q =
    if list_empty q.sched q.links then ok (record q { released = q.sched ∷ q.released }) else bug

-- `elevator_clook`
abbrev pub elevator_clook : ElevatorOps
elevator_clook = record {
  dispatch_fn = clook_dispatch;
  add_req_fn = clook_add_request;
  merge_req_fn = clook_merged_requests;
  former_req_fn = clook_former_request;
  latter_req_fn = clook_latter_request;
}
