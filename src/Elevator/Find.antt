-- ===== src/Elevator/Find.antt =====
-- What `elv_rqhash_find` of hw4/elevator.c finds in the merge hash, and what it leaves in it.
use uth_operating_systems.Base.{
  ℕ, ◌≡◌, ◌⊎◌, inl, inr, refl, sym, ◌∙◌, Bool, true, false, List, [], ◌∷◌, ◌&&◌, ◌||◌, not, arith,
  ok, ◌==◌, ==-ne, ==-refl, ==-eq, if◌then◌else◌, Bool-cases,
}
use uth_operating_systems.Links.{Ptr, null}
use uth_operating_systems.Elevator.{Queue, rq_mergeable}
use uth_operating_systems.Elevator.Hash.{
  hashed, hash_del, rq_hash_key, elv_rqhash_add, find_loop, elv_rqhash_find,
}

-- The request `rq` is one to which a request that begins at `offset` can be appended.
pub record Appendable (q : Queue) (offset : ℕ) (rq : Ptr) : Type 0 where
  pub mergeable : rq_mergeable q rq ≡ true
  pub key : rq_hash_key q rq ≡ offset

-- The queue behind an entry of the bucket's loop that does not match.
abbrev purged : Bool → Ptr → Queue → Queue
purged b r q = if b then record q { table = hash_del r q.table } else q

purged-mergeable :
    (b : Bool) (r : Ptr) (q : Queue) (a : Ptr) → rq_mergeable (purged b r q) a ≡ rq_mergeable q a
unfolding rq_mergeable
purged-mergeable true r q a = refl
purged-mergeable false r q a = refl

purged-key :
    (b : Bool) (r : Ptr) (q : Queue) (a : Ptr) → rq_hash_key (purged b r q) a ≡ rq_hash_key q a
unfolding rq_hash_key
purged-key true r q a = refl
purged-key false r q a = refl

hashed-hash_del :
    (a r : Ptr) (t : List (ℕ × Ptr)) → (a == r) ≡ false → hashed a (hash_del r t) ≡ hashed a t
hashed-hash_del a r [] h = refl
hashed-hash_del a r ((b, x) ∷ t) h =
    let rest = hashed-hash_del a r t h in
    elim (Bool-cases (r == x)) [
      | inl e ↦ rw e (ground (arith, rest))
      | inr e ↦ rw e (ground (arith, rest))
    ]

purged-hashed :
    (b : Bool) (r : Ptr) (q : Queue) (a : Ptr)
    → (b ≡ true → (a == r) ≡ false)
    → hashed a (purged b r q).table ≡ hashed a q.table
purged-hashed true r q a h = hashed-hash_del a r q.table (h refl)
purged-hashed false r q a h = refl

and_not : (b c : Bool) → c ≡ true → (b && not c) ≡ true → ⊥
and_not true c e h = ground arith
and_not false c e h = ground arith

-- A request that is taken off the table is not a mergeable one.
purge_spares :
    (in_bucket : Bool) (r : Ptr) (q : Queue) (a : Ptr)
    → rq_mergeable q a ≡ true
    → (in_bucket && not (rq_mergeable q r)) ≡ true
    → (a == r) ≡ false
purge_spares in_bucket r q a m h =
    ==-ne a r (λ e. and_not in_bucket (rq_mergeable q r) (rw (sym e) m) h)

-- The request `rq` has an entry in the bucket `b`.
abbrev pub in_bucket : ℕ → Ptr → List (ℕ × Ptr) → Bool
in_bucket b rq [] = false
in_bucket b rq ((c, r) ∷ t) = (c == b && rq == r) || in_bucket b rq t

and_parts : (b c d : Bool) → (b && c && d) ≡ true → (b ≡ true) × (c ≡ true) × (d ≡ true)
and_parts true true true h = (refl, refl, refl)
and_parts true true false h = ground arith
and_parts true false d h = ground arith
and_parts false c d h = ground arith

or_right : (b : Bool) {c : Bool} → c ≡ true → (b || c) ≡ true
or_right true h = refl
or_right false h = h

-- A request that has an entry, and not the one that does not match, has one among the others.
other_entry :
    (c d rest : Bool) {m k : Bool}
    → ((c && d) || rest) ≡ true
    → (d ≡ true → m ≡ true)
    → (d ≡ true → k ≡ true)
    → (c && m && k) ≡ false
    → rest ≡ true
other_entry false d rest h hm hk e = h
other_entry true false rest h hm hk e = h
other_entry true true rest h hm hk e = let m' = hm refl in let k' = hk refl in ground arith

-- What is said of the queue behind an entry holds of the queue before it.
purged-Appendable :
    {offset : ℕ} {a : Ptr} (b : Bool) (r : Ptr) (q : Queue)
    → Appendable (purged b r q) offset a
    → Appendable q offset a
unfolding rq_mergeable rq_hash_key
purged-Appendable true r q p = record { mergeable = p.mergeable; key = p.key }
purged-Appendable false r q p = p

Appendable-purged :
    {offset : ℕ} {a : Ptr} (b : Bool) (r : Ptr) (q : Queue)
    → Appendable q offset a
    → Appendable (purged b r q) offset a
unfolding rq_mergeable rq_hash_key
Appendable-purged true r q p = record { mergeable = p.mergeable; key = p.key }
Appendable-purged false r q p = p

moved : (P : Ptr → Type 0) {x y : Ptr × Queue} → x ≡ y → P y.0 → P x.0
moved P e p = rw e p

module _ (bucket : ℕ → ℕ) where
  find_loop-kept :
      (t : List (ℕ × Ptr)) (offset : ℕ) (q : Queue) (a : Ptr)
      → rq_mergeable q a ≡ true
      → hashed a (find_loop bucket t offset q).1.table ≡ hashed a q.table
  unfolding find_loop
  find_loop-kept [] offset q a m = refl
  find_loop-kept ((b, r) ∷ t) offset q a m =
      let drop = b == bucket offset && not (rq_mergeable q r) in
      let q' = purged drop r q in
      let rest = find_loop-kept t offset q' a (purged-mergeable drop r q a ∙ m) in
      let same = purged-hashed drop r q a (purge_spares (b == bucket offset) r q a m) in
      elim (Bool-cases (b == bucket offset && rq_mergeable q r && rq_hash_key q r == offset)) [
        | inl e ↦ rw e refl
        | inr e ↦ rw e (rest ∙ same)
      ]

  -- For any function from keys to buckets, a mergeable request is in the hash after
  -- `elv_rqhash_find` just if it was in it before.
  pub elv_rqhash_find-kept :
      (q : Queue) (offset : ℕ) (a : Ptr)
      → rq_mergeable q a ≡ true
      → hashed a (elv_rqhash_find bucket q offset).1.table ≡ hashed a q.table
  unfolding elv_rqhash_find
  elv_rqhash_find-kept q offset a m = find_loop-kept q.table offset q a m

  find_loop-skips :
      (b r : ℕ) (t : List (ℕ × Ptr)) (offset : ℕ) (q : Queue)
      → (b == bucket offset && rq_mergeable q r && rq_hash_key q r == offset) ≡ false
      → find_loop bucket ((b, r) ∷ t) offset q
        ≡ find_loop bucket t offset (purged (b == bucket offset && not (rq_mergeable q r)) r q)
  unfolding find_loop
  find_loop-skips b r t offset q e = rw e refl

  find_loop-hits :
      (b r : ℕ) (t : List (ℕ × Ptr)) (offset : ℕ) (q : Queue)
      → (b == bucket offset && rq_mergeable q r && rq_hash_key q r == offset) ≡ true
      → find_loop bucket ((b, r) ∷ t) offset q ≡ (r, q)
  unfolding find_loop
  find_loop-hits b r t offset q e = rw e refl

  -- The answer `rq` is `NULL` or an entry to which a request can be appended.
  abbrev Sound : List (ℕ × Ptr) → ℕ → Queue → Ptr → Type 0
  Sound t offset q rq =
      (rq ≡ null) ⊎ (Appendable q offset rq × (in_bucket (bucket offset) rq t ≡ true))

  Sound-later :
      (b r : ℕ) (t : List (ℕ × Ptr)) (offset : ℕ) (q : Queue) (drop : Bool) (rq : Ptr)
      → Sound t offset (purged drop r q) rq
      → Sound ((b, r) ∷ t) offset q rq
  Sound-later b r t offset q drop rq (inl z) = inl z
  Sound-later b r t offset q drop rq (inr (p, h)) =
      inr (purged-Appendable drop r q p, or_right (b == bucket offset && rq == r) h)

  find_loop-Sound :
      (t : List (ℕ × Ptr)) (offset : ℕ) (q : Queue)
      → Sound t offset q (find_loop bucket t offset q).0
  unfolding find_loop
  find_loop-Sound [] offset q = inl refl
  find_loop-Sound ((b, r) ∷ t) offset q =
      let drop = b == bucket offset && not (rq_mergeable q r) in
      let next = find_loop bucket t offset (purged drop r q) in
      elim (Bool-cases (b == bucket offset && rq_mergeable q r && rq_hash_key q r == offset)) [
        | inl e ↦
            let (i, m, k) =
              and_parts (b == bucket offset) (rq_mergeable q r) (rq_hash_key q r == offset) e in
            moved (Sound ((b, r) ∷ t) offset q) (find_loop-hits b r t offset q e) (
              inr (
                record { mergeable = m; key = ==-eq (rq_hash_key q r) offset k },
                rw (i, ==-refl r) refl,
              ))
        | inr e ↦
            moved (Sound ((b, r) ∷ t) offset q) (find_loop-skips b r t offset q e)
              (Sound-later b r t offset q drop next.0 (find_loop-Sound t offset (purged drop r q)))
      ]

  find_loop-Appendable :
      (t : List (ℕ × Ptr)) (offset : ℕ) (q : Queue) (a : Ptr)
      → Appendable q offset a
      → in_bucket (bucket offset) a t ≡ true
      → Appendable q offset (find_loop bucket t offset q).0
  unfolding find_loop
  find_loop-Appendable [] offset q a p h = ground arith
  find_loop-Appendable ((b, r) ∷ t) offset q a p h =
      let drop = b == bucket offset && not (rq_mergeable q r) in
      elim (Bool-cases (b == bucket offset && rq_mergeable q r && rq_hash_key q r == offset)) [
        | inl e ↦
            let (i, m, k) =
              and_parts (b == bucket offset) (rq_mergeable q r) (rq_hash_key q r == offset) e in
            rw e (record { mergeable = m; key = ==-eq (rq_hash_key q r) offset k })
        | inr e ↦ rw e (
            purged-Appendable drop r q (
              find_loop-Appendable t offset (purged drop r q) a (Appendable-purged drop r q p) (
                other_entry (b == bucket offset) (a == r) (in_bucket (bucket offset) a t) h
                  (λ i. rw (sym (==-eq a r i)) p.mergeable)
                  (λ i. rw (sym (==-eq a r i)) (rw p.key (==-refl offset))) e)))
      ]

  -- For any function from keys to buckets, `elv_rqhash_find` answers `NULL` or a mergeable request
  -- whose end is the given sector and which has an entry in that sector's bucket.
  pub elv_rqhash_find-Sound :
      (q : Queue) (offset : ℕ)
      → ((elv_rqhash_find bucket q offset).0 ≡ null)
        ⊎ (Appendable q offset (elv_rqhash_find bucket q offset).0
            × (in_bucket (bucket offset) (elv_rqhash_find bucket q offset).0 q.table ≡ true))
  unfolding elv_rqhash_find
  elv_rqhash_find-Sound q offset = find_loop-Sound q.table offset q

  -- For any function from keys to buckets, if a mergeable request whose end is the given sector has
  -- an entry in that sector's bucket, then `elv_rqhash_find` finds a mergeable request whose end is
  -- the given sector.
  pub elv_rqhash_find-Appendable :
      (q : Queue) (offset : ℕ) (a : Ptr)
      → Appendable q offset a
      → in_bucket (bucket offset) a q.table ≡ true
      → Appendable q offset (elv_rqhash_find bucket q offset).0
  unfolding elv_rqhash_find
  elv_rqhash_find-Appendable q offset a p h = find_loop-Appendable q.table offset q a p h

  -- For any function from keys to buckets, if a mergeable request is not in the hash, then
  -- `elv_rqhash_add` returns, and `elv_rqhash_find` of the request's end then finds that request
  -- and changes nothing.
  pub elv_rqhash_add-find :
      (q : Queue) (rq : Ptr)
      → hashed rq q.table ≡ false
      → rq_mergeable q rq ≡ true
      → (q' : Queue) × (elv_rqhash_add bucket q rq ≡ ok q')
        × (elv_rqhash_find bucket q' (rq_hash_key q rq) ≡ (rq, q'))
  unfolding elv_rqhash_find find_loop elv_rqhash_add rq_mergeable rq_hash_key
  elv_rqhash_add-find q rq h m = (
    record q { table = (bucket (rq_hash_key q rq), rq) ∷ q.table },
    rw h refl,
    rw (==-refl (bucket (rq_hash_key q rq)), m, ==-refl (rq_hash_key q rq)) refl,
  )
