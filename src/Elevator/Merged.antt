-- ===== src/Elevator/Merged.antt =====
-- What `elv_merge_requests` of hw4/elevator.c leaves in the merge hash when one request has been
-- merged into another.
use uth_operating_systems.Base.{
  ℕ, ◌≡◌, inl, inr, refl, subst, ap, ◌∙◌, true, false, List, ◌∷◌, Returns, ◌==◌, ==-refl,
  if◌then◌else◌, Bool-cases,
}
use uth_operating_systems.Links.{Ptr}
use uth_operating_systems.Elevator.{Queue, rq_mergeable, dec32}
use uth_operating_systems.Elevator.Hash.{
  hashed, hash_del, rq_hash_key, elv_rqhash_del, elv_rqhash_add, elv_rqhash_reposition,
  elv_rqhash_find, find_loop,
}
use uth_operating_systems.Elevator.Scheduler.{ElevatorOps}
use uth_operating_systems.Elevator.Merge.{elv_merge_requests}
use uth_operating_systems.Elevator.Joined.{hashed-hash_del_self}

-- Taking a request off the table.
unhashed :
    (rq : Ptr) (t : List (ℕ × Ptr)) → hashed rq (if hashed rq t then hash_del rq t else t) ≡ false
unhashed rq t = elim (Bool-cases (hashed rq t)) [
  | inl e ↦ rw e (hashed-hash_del_self rq t)
  | inr e ↦ rw e e
]

-- The first entry of the table stays the first when another request is taken off.
first_entry :
    (rq next : Ptr) (b : ℕ) (t : List (ℕ × Ptr))
    → (next == rq) ≡ false
    → (rest : List (ℕ × Ptr)) × ((if hashed next ((b, rq) ∷ t)
          then hash_del next ((b, rq) ∷ t)
          else (b, rq) ∷ t)
        ≡ (b, rq) ∷ rest)
first_entry rq next b t o = elim (Bool-cases (hashed next t)) [
  | inl e ↦ (hash_del next t, rw (o, e) refl)
  | inr e ↦ (t, rw (o, e) refl)
]

module _ (bucket : ℕ → ℕ) where
  find_first :
      (q : Queue) (rq : Ptr) (rest : List (ℕ × Ptr))
      → q.table ≡ (bucket (rq_hash_key q rq), rq) ∷ rest
      → rq_mergeable q rq ≡ true
      → elv_rqhash_find bucket q (rq_hash_key q rq) ≡ (rq, q)
  unfolding elv_rqhash_find find_loop rq_mergeable rq_hash_key
  find_first q rq rest e m =
      ap (λ t. find_loop bucket t (rq_hash_key q rq) q) e
      ∙ rw (==-refl (bucket (rq_hash_key q rq)), m, ==-refl (rq_hash_key q rq)) refl

  -- For any function from keys to buckets, if the scheduler's function that is told of a merge
  -- changes neither the requests nor their count, and a sorted request has been merged into another
  -- one, which is mergeable, then `elv_merge_requests` returns: the other request is that of the
  -- last merge and `elv_rqhash_find` of its end finds it and changes nothing, the merged one is not
  -- in the hash, and the count of sorted requests is down by one.
  pub elv_merge_requests-find :
      (ops : ElevatorOps) (q : Queue) (rq next : Ptr)
      → (ops.merge_req_fn q rq next).request ≡ q.request
      → (ops.merge_req_fn q rq next).nr_sorted ≡ q.nr_sorted
      → (q.request next).sorted ≡ true
      → (next == rq) ≡ false
      → rq_mergeable q rq ≡ true
      → Returns
          (λ q'.
            (q'.last_merge ≡ rq)
            × (elv_rqhash_find bucket q' (rq_hash_key q rq) ≡ (rq, q'))
            × (hashed next q'.table ≡ false)
            × (q'.nr_sorted ≡ dec32 q.nr_sorted))
          (elv_merge_requests bucket ops q rq next)
  unfolding elv_merge_requests elv_rqhash_reposition elv_rqhash_add elv_rqhash_del rq_mergeable
      rq_hash_key
  elv_merge_requests-find ops q rq next same_requests same_count sorted other m =
      let told = ops.merge_req_fn q rq next in
      let key = bucket (rq_hash_key told rq) in
      let table = (key, rq) ∷ hash_del rq told.table in
      let (rest, first) = first_entry rq next key (hash_del rq told.table) other in
      let q' : Queue = record told {
        table = if hashed next table then hash_del next table else table;
        nr_sorted = dec32 told.nr_sorted;
        last_merge = rq;
      } in
      (
        q',
        rw (sorted, hashed-hash_del_self rq told.table) refl,
        (
          refl,
          subst (λ k. elv_rqhash_find bucket q' k ≡ (rq, q'))
              (ap (λ f. rq_hash_key (record q { request = f }) rq) same_requests)
              (find_first q' rq rest first
                (ap (λ f. rq_mergeable (record q { request = f }) rq) same_requests ∙ m)),
          unhashed next table,
          ap dec32 same_count,
        ),
      )
