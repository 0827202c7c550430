-- ===== src/Elevator/Joined.antt =====
-- What `elv_merge` of hw4/elevator.c answers for a bio, and where a request that has grown by a
-- merge is found afterwards.
use uth_operating_systems.Base.{
  ℕ, ◌≡◌, ◌≢◌, inl, inr, refl, Bool, true, false, List, [], ◌∷◌, ◌&&◌, not, ◌==◌, Bool-cases,
}
use uth_operating_systems.Links.{Ptr, null}
use uth_operating_systems.Elevator.{Queue}
use uth_operating_systems.Elevator.Hash.{hashed, hash_del}
use uth_operating_systems.Elevator.Merge.{MergeType, no_merge, back_merge, is_no_merge, Bio}
use uth_operating_systems.Elevator.Find.{Appendable, in_bucket}

-- The test of the one-hit cache.
abbrev joins_last : Queue → Bio → Bool
joins_last q bio =
    not (q.last_merge == null)
    && bio.merge_ok q q.last_merge
    && not (is_no_merge (bio.try_merge q q.last_merge))

module _ (bucket : ℕ → ℕ) where
  -- The answers for `bio`: no request, the last one merged with, or one of the hash whose end is
  -- where the bio begins.
  pub data Joined (q : Queue) (bio : Bio) : MergeType × Ptr × Queue → Type 0 where
    not_joined : {q' : Queue} → Joined q bio (no_merge, null, q')
    joined_last :
        q.nomerges ≡ false
        → q.last_merge ≢ null
        → bio.merge_ok q q.last_merge ≡ true
        → is_no_merge (bio.try_merge q q.last_merge) ≡ false
        → Joined q bio (bio.try_merge q q.last_merge, q.last_merge, q)
    joined_hashed :
        {rq : Ptr} {q' : Queue}
        → q.nomerges ≡ false
        → q.noxmerges ≡ false
        → rq ≢ null
        → Appendable q bio.sector rq
        → in_bucket (bucket bio.sector) rq q.table ≡ true
        → bio.merge_ok q' rq ≡ true
        → Joined q bio (back_merge, rq, q')

pub hashed-hash_del_self : (rq : Ptr) (t : List (ℕ × Ptr)) → hashed rq (hash_del rq t) ≡ false
hashed-hash_del_self rq [] = refl
hashed-hash_del_self rq ((b, r) ∷ t) =
    let rest = hashed-hash_del_self rq t in
    elim (Bool-cases (rq == r)) [ inl e ↦ rw e rest | inr e ↦ rw e (rw e rest) ]
