-- ===== src/Elevator.antt =====
-- The request queue of the block layer, as hw4/elevator.c and the two I/O schedulers use it:
-- `struct request` and `struct request_queue` (hw4/header_files/blkdev.h), the macros of
-- hw4/elevator.h, the merge hash, and the insertion into the dispatch queue.
pub mod Hash
pub mod Dispatch
pub mod Place
pub mod Sort
pub mod Order
pub mod Scheduler
pub mod Move
pub mod Drain
pub mod Add
pub mod Merge
pub mod Insertion
pub mod Find
pub mod Joined
pub mod Merged
pub mod Tree
pub mod Search
pub mod Hooks
use uth_operating_systems.Base.{
  ℕ, ◌+◌, ◌-◌, ◌%◌, ◌^◌, Bool, true, false, List, [], ◌∷◌, not, ◌&&◌, ◌||◌, ◌==◌, if◌then◌else◌,
  update,
}
use uth_operating_systems.Links.{Ptr, null, Links}

-- `struct request`: `__sector`, the length in sectors, and a Boolean for each bit of `cmd_flags`
-- that the code reads or sets; `fs` is `cmd_type == REQ_TYPE_FS`, `nomerge` is
-- `cmd_flags & REQ_NOMERGE_FLAGS`, `sync` is `rq_is_sync`.
pub record Request : Type 0 where
  pub sector : ℕ
  pub sectors : ℕ
  pub fs : Bool
  pub write : Bool
  pub discard : Bool
  pub softbarrier : Bool
  pub started : Bool
  pub sorted : Bool
  pub elvpriv : Bool
  pub nomerge : Bool
  pub sync : Bool
  pub quiet : Bool

-- `struct request_queue`, with the elevator's merge hash, and with the memory: the links of every
-- `queuelist` (a request's address is also that of its `queuelist`) and every request.
-- `queue_head` is the dispatch queue's list head, `sched` is `&nd->queue` of the I/O scheduler.
-- `nomerges` and `noxmerges` are the queue's flags, `in_flight` counts the requests at the driver.
-- `released` lists the objects given to `kfree` and `kobject_put`, the newest first.
pub record Queue : Type 0 where
  pub links : Links
  pub request : Ptr → Request
  pub queue_head : Ptr
  pub elevator : Ptr
  pub sched : Ptr
  pub table : List (ℕ × Ptr)
  pub last_merge : Ptr
  pub nr_sorted : ℕ
  pub end_sector : ℕ
  pub boundary_rq : Ptr
  pub released : List Ptr
  pub nomerges : Bool
  pub noxmerges : Bool
  pub in_flight : Bool → ℕ

-- `blk_rq_pos`
abbrev pub blk_rq_pos : Queue → Ptr → ℕ
blk_rq_pos q rq = (q.request rq).sector

-- `rq_end_sector`, on the 64-bit `sector_t`.
unfoldable pub rq_end_sector : Queue → Ptr → ℕ
rq_end_sector q rq = ((q.request rq).sector + (q.request rq).sectors) % 2 ^ 64

-- `rq_mergeable`
unfoldable pub rq_mergeable : Queue → Ptr → Bool
rq_mergeable q rq = if not (q.request rq).fs then false else not (q.request rq).nomerge

-- `n--` and `n++` on an `unsigned int`.
abbrev pub dec32 : ℕ → ℕ
dec32 n = (n + 2 ^ 32 - 1) % 2 ^ 32

abbrev pub inc32 : ℕ → ℕ
inc32 n = (n + 1) % 2 ^ 32

-- A write to fields of a request.
abbrev pub set_request : Ptr → Request → Queue → Queue
set_request rq r q = record q { request = update q.request rq r }
