-- ===== src/Elevator/Hooks.antt =====
-- The functions of hw4/elevator.c that call one function pointer of the I/O scheduler where it is
-- set, and `elv_abort_queue`, which ends all dispatched requests with an error.
use uth_operating_systems.Base.{
  ℕ, zero, suc, ◌≡◌, ◌<◌, refl, ap, ◌∙◌, Bool, true, List, [], ◌∷◌, ◌&&◌, not, ◌==◌, arith, Option,
  none, some, Run, ok, out_of_fuel, Returns, if◌then◌else◌, length,
}
use uth_operating_systems.Links.{Ptr, null, list_empty}
use uth_operating_systems.Links.Chain.{Ring}
use uth_operating_systems.Links.Ops.{list_empty-Ring}
use uth_operating_systems.Elevator.{Queue, set_request}

-- `ELV_MQUEUE_MAY`, `ELV_MQUEUE_NO`, `ELV_MQUEUE_MUST`
pub data MayQueue : Type 0 where
  may no_queue must : MayQueue

-- The function pointers of `struct elevator_ops` that no scheduler of the repository sets, for one
-- bio, and the two that walk the requests. An error is the number behind the minus sign.
pub record Hooks : Type 0 where
  pub allow_merge_fn : Option (Queue → Ptr → Bool)
  pub bio_merged_fn : Option (Queue → Ptr → Queue)
  pub former_req_fn : Option (Queue → Ptr → Ptr)
  pub latter_req_fn : Option (Queue → Ptr → Ptr)
  pub set_req_fn : Option (Queue → Ptr → ℕ × Queue)
  pub put_req_fn : Option (Queue → Ptr → Queue)
  pub may_queue_fn : Option (Queue → Bool → MayQueue)

module _ (e : Hooks) where
  unfoldable pub elv_iosched_allow_merge : Queue → Ptr → Bool
  elv_iosched_allow_merge q rq = elim e.allow_merge_fn [ some f ↦ f q rq | none ↦ true ]

  -- `blk_rq_merge_ok` of the block layer is a parameter.
  unfoldable pub elv_rq_merge_ok : (blk_rq_merge_ok : Queue → Ptr → Bool) → Queue → Ptr → Bool
  unfolding elv_iosched_allow_merge
  elv_rq_merge_ok blk_rq_merge_ok q rq = blk_rq_merge_ok q rq && elv_iosched_allow_merge q rq

  unfoldable pub elv_bio_merged : Queue → Ptr → Queue
  elv_bio_merged q rq = elim e.bio_merged_fn [ some f ↦ f q rq | none ↦ q ]

  unfoldable pub elv_latter_request : Queue → Ptr → Ptr
  elv_latter_request q rq = elim e.latter_req_fn [ some f ↦ f q rq | none ↦ null ]

  unfoldable pub elv_former_request : Queue → Ptr → Ptr
  elv_former_request q rq = elim e.former_req_fn [ some f ↦ f q rq | none ↦ null ]

  unfoldable pub elv_set_request : Queue → Ptr → ℕ × Queue
  elv_set_request q rq = elim e.set_req_fn [ some f ↦ f q rq | none ↦ (0, q) ]

  unfoldable pub elv_put_request : Queue → Ptr → Queue
  elv_put_request q rq = elim e.put_req_fn [ some f ↦ f q rq | none ↦ q ]

  unfoldable pub elv_may_queue : Queue → (rw : Bool) → MayQueue
  elv_may_queue q rw = elim e.may_queue_fn [ some f ↦ f q rw | none ↦ may ]

-- The attributes' files in sysfs: what a file gives or takes, or the number behind the minus sign.
pub data Transfer : Type 0 where
  bytes errno : ℕ → Transfer

-- `EIO`, `ENOENT`
abbrev eio : ℕ
eio = 5

abbrev enoent : ℕ
enoent = 2

-- `e` is the elevator queue, `type_of` its type, `show` the attribute's function where it is set.
unfoldable pub elv_attr_show : (show : Option (Ptr → Transfer)) → (type_of : Ptr) → Ptr → Transfer
elv_attr_show show type_of e = elim show [
  | some f ↦ if not (type_of == null) then f e else errno enoent
  | none ↦ errno eio
]

unfoldable pub elv_attr_store :
    (store : Option (Ptr → (count : ℕ) → Transfer)) → (type_of : Ptr) → Ptr → ℕ → Transfer
elv_attr_store store type_of e count = elim store [
  | some f ↦ if not (type_of == null) then f e count else errno enoent
  | none ↦ errno eio
]

-- What `elv_abort_queue` calls of the block layer.
pub record Ending : Type 0 where
  pub blk_abort_flushes : Queue → Queue
  pub blk_start_request : Ptr → Queue → Queue
  pub blk_end_request_all : Ptr → Queue → Queue

module _ (b : Ending) where
  -- The body of the loop, for the first request.
  unfoldable pub abort_request : Ptr → Queue → Queue
  abort_request rq q =
      b.blk_end_request_all rq
        (b.blk_start_request rq (set_request rq (record (q.request rq) { quiet = true }) q))

  unfoldable pub abort_loop : ℕ → Queue → Run Queue
  unfolding abort_request
  abort_loop zero q = out_of_fuel
  abort_loop (suc fuel) q =
      let rest = abort_loop fuel (abort_request (q.links.next q.queue_head) q) in
      if list_empty q.queue_head q.links then ok q else rest

  unfoldable pub elv_abort_queue : ℕ → Queue → Run Queue
  unfolding abort_loop
  elv_abort_queue fuel q = abort_loop fuel (b.blk_abort_flushes q)

  -- Starting and ending the first dispatched request takes it off the dispatch queue.
  abbrev pub TakesOff : Type 0
  TakesOff =
      (q : Queue) (rq : Ptr) (xs : List Ptr)
      → Ring q.links q.queue_head (rq ∷ xs)
      → let q' = abort_request rq q in
        (q'.queue_head ≡ q.queue_head) × Ring q'.links q'.queue_head xs

  abort_loop-Ring :
      (off : TakesOff) (fuel : ℕ) (q : Queue) (xs : List Ptr)
      → Ring q.links q.queue_head xs
      → length xs < fuel
      → Returns
          (λ q'. (q'.queue_head ≡ q.queue_head) × Ring q'.links q'.queue_head [])
          (abort_loop fuel q)
  unfolding abort_loop
  abort_loop-Ring off zero q xs r h = elim h [ ]
  abort_loop-Ring off (suc fuel) q [] r h = rw (list_empty-Ring [] r) (q, refl, (refl, r))
  abort_loop-Ring off (suc fuel) q (x ∷ xs) r h =
      let (same_head, r') = off q x xs r in
      let (q', e, (h', done)) = abort_loop-Ring off fuel (abort_request x q) xs r' (omega arith) in
      let e' : abort_loop fuel (abort_request (q.links.next q.queue_head) q) ≡ ok q' =
        ap (λ y. abort_loop fuel (abort_request y q)) r.chain.0 ∙ e in
      rw (list_empty-Ring (x ∷ xs) r) (q', e', (h' ∙ same_head, done))

  -- If starting and ending the first request takes it off the dispatch queue, and flushing leaves a
  -- dispatch queue of fewer requests than the fuel, then `elv_abort_queue` returns with an empty
  -- dispatch queue.
  pub elv_abort_queue-Ring :
      (off : TakesOff) (fuel : ℕ) (q : Queue) (xs : List Ptr)
      → Ring (b.blk_abort_flushes q).links (b.blk_abort_flushes q).queue_head xs
      → length xs < fuel
      → Returns (λ q'. Ring q'.links q'.queue_head []) (elv_abort_queue fuel q)
  unfolding elv_abort_queue
  elv_abort_queue-Ring off fuel q xs r h =
      let (q', e, (_, done)) = abort_loop-Ring off fuel (b.blk_abort_flushes q) xs r h in
      (q', e, done)
