-- ===== src/Noop.antt =====
-- The modified no-op I/O scheduler, hw1/module/project1-iosched.c: a queue served in order of
-- arrival. `struct noop_data` is its list head, `q.sched`. The message that is printed at each
-- dispatch is output only.
pub mod Laws
use uth_operating_systems.Base.{ℕ, Bool, true, false, ◌∷◌, Run, ok, bug, ◌>>=◌, ◌==◌, if◌then◌else◌}
use uth_operating_systems.Links.{
  Ptr, null, list_add_tail, list_del_init, list_empty, init_list_head,
}
use uth_operating_systems.Elevator.{Queue}
use uth_operating_systems.Elevator.Dispatch.{elv_dispatch_sort}
use uth_operating_systems.Elevator.Scheduler.{ElevatorOps}

unfoldable pub team42_noop_merged_requests : Queue → Ptr → Ptr → Queue
team42_noop_merged_requests q rq next = record q { links = list_del_init next q.links }

unfoldable pub team42_noop_dispatch : ℕ → Queue → Run (Bool × Queue)
team42_noop_dispatch fuel q = if list_empty q.sched q.links then ok (false, q) else do
  let rq = q.links.next q.sched
  q' ← elv_dispatch_sort fuel (record q { links = list_del_init rq q.links }) rq
  ok (true, q')

-- There is no loop, so no fuel is used.
unfoldable pub team42_noop_add_request : Queue → Ptr → Queue
team42_noop_add_request q rq = record q { links = list_add_tail rq q.sched q.links }

unfoldable pub noop_former_request : Queue → Ptr → Ptr
noop_former_request q rq = if q.links.prev rq == q.sched then null else q.links.prev rq

unfoldable pub noop_latter_request : Queue → Ptr → Ptr
noop_latter_request q rq = if q.links.next rq == q.sched then null else q.links.next rq

-- `eq` and `nd` are what `elevator_alloc` and `kmalloc_node` return; `true` is `-ENOMEM`.
unfoldable pub team42_noop_init_queue : (eq nd : Ptr) → Queue → Bool × Queue
team42_noop_init_queue eq nd q =
    if eq == null
    then (true, q)
    else if nd == null
    then (true, record q { released = eq ∷ q.released })
    else (false, record q { sched = nd; links = init_list_head nd q.links; elevator = eq })

-- `BUG_ON(!list_empty(&nd->queue))`, and `kfree(nd)`.
unfoldable pub team42_noop_exit_queue : Queue → Run Queue
team42_noop_exit_queue q =
    if list_empty q.sched q.links then ok (record q { released = q.sched ∷ q.released }) else bug

-- `elevator_noop`
abbrev pub elevator_noop : ElevatorOps
elevator_noop = record {
  dispatch_fn = team42_noop_dispatch;
  add_req_fn = λ fuel q rq. ok (team42_noop_add_request q rq);
  merge_req_fn = team42_noop_merged_requests;
  former_req_fn = noop_former_request;
  latter_req_fn = noop_latter_request;
}
