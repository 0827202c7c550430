-- ===== src/Links/Splice.antt =====
-- `list_splice` and `list_splice_init` of hw2/Scheduler_VM/list.h.
use uth_operating_systems.Base.{
  ◌≡◌, List, [], ◌∷◌, ◌++◌, arith, ◌∉◌, Distinct, has-append, last_of, first_of_list, append-nil,
  Distinct-remove,
}
use uth_operating_systems.Links.{
  Ptr, Links, set_next, set_prev, splice_after, list_splice, list_splice_init, init_list_head,
}
use uth_operating_systems.Links.Chain.{Chain, Ring, frame, Chain-next, last_of-ne, first_of_list-ne}
use uth_operating_systems.Links.Ops.{init_list_head-Ring, list_empty-Ring, Ring-frame}

-- The four stores of `__list_splice`, over the values that it has read.
abbrev joined : (first last at head : Ptr) → Links → Links
joined first last at head m =
    set_prev at last (set_next last at (set_next head first (set_prev first head m)))

glue :
    (m : Links) (first h p : Ptr) (ys : List Ptr) (l : Ptr) (xs : List Ptr)
    → Chain m p ys l
    → Chain m h xs h
    → Distinct (p ∷ (ys ++ h ∷ xs))
    → first ∉ (ys ++ h ∷ xs)
    → Chain (joined first (last_of p ys) (first_of_list xs h) h m) p (ys ++ xs) h
glue m first h p [] l [] c e d o = (ground arith, ground arith)
glue m first h p [] l (x ∷ xs) c e d o = (
  ground arith,
  ground arith,
  frame _ x xs h e.2 (λ a i. ground arith) (λ a i. ground (arith, has-append a xs (h ∷ []))),
)
glue m first h p (y ∷ ys) l xs c e d o = (
  ground (arith, last_of-ne y ys (h ∷ xs) p, has-append p ys (h ∷ xs)),
  ground (arith, first_of_list-ne ys xs h y, has-append y ys (h ∷ xs), has-append y ys xs),
  glue m first h y ys l xs c.2 e d.1 (ground arith),
)

module _ (m : Links) (l h : Ptr) (xs : List Ptr) (r : Ring m h xs) where
  splice_after-Ring :
      (y : Ptr) (ys : List Ptr)
      → Ring m l (y ∷ ys)
      → Distinct (y ∷ (ys ++ h ∷ xs))
      → Ring (splice_after l h m) h (y ∷ (ys ++ xs))
  unfolding splice_after
  splice_after-Ring y ys s d =
      let last : m.prev l ≡ last_of y ys =
        (Chain-next m l (y ∷ ys) [] l (rw append-nil s.chain)).1 in
      let at = (Chain-next m h [] xs h r.chain).0 in
      let clear = Distinct-remove (y ∷ ys) h xs d in
      rw (s.chain.0, last, at)
        (record {
          chain = (
            ground (arith, last_of-ne y ys xs h clear.1),
            ground
                (arith, first_of_list-ne ys xs h y, has-append y ys (h ∷ xs), has-append y ys xs),
            glue m y h y ys l xs s.chain.2 r.chain d d.0,
          );
          distinct = (clear.1, clear.0);
        })

  -- The entries of the list `l` come to stand in front of those of `h`.
  pub list_splice-Ring :
      (ys : List Ptr)
      → Ring m l ys
      → Distinct (ys ++ h ∷ xs)
      → Ring (list_splice l h m) h (ys ++ xs)
  unfolding list_splice
  list_splice-Ring [] s d = rw (list_empty-Ring [] s) r
  list_splice-Ring (y ∷ ys) s d = rw (list_empty-Ring (y ∷ ys) s) (splice_after-Ring y ys s d)

  -- If `h` and `l` head circular lists with no entry in common, then after `list_splice_init` the
  -- list of `h` has the entries of `l` and then its own, each in their order, and that of `l` is
  -- empty.
  pub list_splice_init-Ring :
      (ys : List Ptr)
      → Ring m l ys
      → Distinct (ys ++ h ∷ xs)
      → l ∉ (h ∷ xs)
      → Ring (list_splice_init l h m) h (ys ++ xs) × Ring (list_splice_init l h m) l []
  unfolding list_splice_init
  list_splice_init-Ring [] s d o = rw (list_empty-Ring [] s) (r, s)
  list_splice_init-Ring (y ∷ ys) s d o = rw (list_empty-Ring (y ∷ ys) s) (
    Ring-frame _ (splice_after-Ring y ys s d) (
        unfold init_list_head in
        λ a i. ground (arith, has-append l ys xs, s.distinct, has-append a ys xs)),
    init_list_head-Ring l _,
  )
