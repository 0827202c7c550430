-- ===== src/Elevator/Hash.antt =====
-- The merge hash of hw4/elevator.c. The kernel's hash table keeps, in each bucket, the newest entry
-- first; here one list holds all buckets, each entry with the number of its bucket.
use uth_operating_systems.Base.{
  ℕ, ◌+◌, ◌%◌, ◌^◌, Bool, false, List, [], ◌∷◌, ◌&&◌, ◌||◌, not, Run, ok, bug, ◌==◌, if◌then◌else◌,
}
use uth_operating_systems.Links.{Ptr, null}
use uth_operating_systems.Elevator.{Queue, rq_mergeable}

-- `hash_hashed`, `hash_del`
abbrev pub hashed : Ptr → List (ℕ × Ptr) → Bool
hashed rq [] = false
hashed rq ((b, r) ∷ t) = (rq == r) || hashed rq t

abbrev pub hash_del : Ptr → List (ℕ × Ptr) → List (ℕ × Ptr)
hash_del rq [] = []
hash_del rq ((b, r) ∷ t) = if rq == r then hash_del rq t else (b, r) ∷ hash_del rq t

-- `rq_hash_key`
unfoldable pub rq_hash_key : Queue → Ptr → ℕ
rq_hash_key q rq = ((q.request rq).sector + (q.request rq).sectors) % 2 ^ 64

-- `elv_rqhash_del`
unfoldable pub elv_rqhash_del : Queue → Ptr → Queue
elv_rqhash_del q rq = record q {
  table = if hashed rq q.table then hash_del rq q.table else q.table;
}

-- The bucket of a key, `hash_min` of linux/hash.h, is a parameter.
module _ (bucket : ℕ → ℕ) where
  -- `elv_rqhash_add`
  unfoldable pub elv_rqhash_add : Queue → Ptr → Run Queue
  unfolding rq_hash_key
  elv_rqhash_add q rq =
      if hashed rq q.table
      then bug
      else ok (record q { table = (bucket (rq_hash_key q rq), rq) ∷ q.table })

  -- `elv_rqhash_reposition`
  unfoldable pub elv_rqhash_reposition : Queue → Ptr → Run Queue
  unfolding elv_rqhash_add
  elv_rqhash_reposition q rq = elv_rqhash_add (record q { table = hash_del rq q.table }) rq

  -- The loop of `elv_rqhash_find` over the entries of the bucket of `offset` that are left.
  unfoldable pub find_loop : List (ℕ × Ptr) → ℕ → Queue → Ptr × Queue
  unfolding rq_hash_key rq_mergeable
  find_loop [] offset q = (null, q)
  find_loop ((b, r) ∷ t) offset q =
      let next = find_loop t offset (
        if b == bucket offset && not (rq_mergeable q r)
        then record q { table = hash_del r q.table }
        else q) in
      if b == bucket offset && rq_mergeable q r && rq_hash_key q r == offset then (r, q) else next

  -- `elv_rqhash_find`: the request found, or `NULL`, and the queue with the entries that are not
  -- mergeable taken off the table.
  unfoldable pub elv_rqhash_find : Queue → ℕ → Ptr × Queue
  unfolding find_loop
  elv_rqhash_find q offset = find_loop q.table offset q
