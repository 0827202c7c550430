-- ===== src/Links/Ops.antt =====
-- The operations of hw2/Scheduler_VM/list.h on circular lists.
use uth_operating_systems.Base.{
  ◌≡◌, ◌≢◌, true, List, [], ◌∷◌, ◌++◌, arith, ◌∉◌, Distinct-insert, Distinct-remove, has-append,
  last_of, first_of_list, has, is_nil, append-nil,
}
use uth_operating_systems.Links.{
  Ptr, null, Links, init_list_head, insert_between, list_add, list_add_tail, bridge, list_del,
  list_del_init, list_move, list_move_tail, list_empty,
}
use uth_operating_systems.Links.Chain.{
  Ring, frame, Chain-next, Chain-neighbours, Chain-insert, Chain-remove, last_of-ne,
  first_of_list-ne,
}

pub init_list_head-Ring : (h : Ptr) (m : Links) → Ring (init_list_head h m) h []
unfolding init_list_head
init_list_head-Ring h m = record {
  chain = (ground arith, ground arith);
  distinct = (ground arith, tt);
}

-- The stores of an insertion reach the entries and the new address only.
pub insert_between-other :
    (m : Links) (h new : Ptr) (xs ys : List Ptr) (a : Ptr)
    → a ∉ (h ∷ (xs ++ ys))
    → a ≢ new
    → let m' = insert_between new (last_of h xs) (first_of_list ys h) m in
      (m'.next a ≡ m.next a) × (m'.prev a ≡ m.prev a)
unfolding insert_between
insert_between-other m h new xs ys a o n =
    (ground (arith, last_of-ne h xs ys a o), ground (arith, first_of_list-ne xs ys h a))

module _ {m : Links} {h : Ptr} where
  pub insert_between-Ring :
      (new : Ptr) (xs ys : List Ptr)
      → Ring m h (xs ++ ys)
      → new ∉ (h ∷ (xs ++ ys))
      → Ring (insert_between new (last_of h xs) (first_of_list ys h) m) h (xs ++ new ∷ ys)
  insert_between-Ring new xs ys r o = record {
    chain = Chain-insert m new h xs ys h r.chain r.distinct r.distinct.0 o (ground arith);
    distinct = Distinct-insert (h ∷ xs) new ys r.distinct o;
  }

  -- Before the entry that `ys` begins with, or at the end if there is none.
  pub list_add_tail-Ring_at :
      (new : Ptr) (xs ys : List Ptr)
      → Ring m h (xs ++ ys)
      → new ∉ (h ∷ (xs ++ ys))
      → Ring (list_add_tail new (first_of_list ys h) m) h (xs ++ new ∷ ys)
  unfolding list_add_tail
  list_add_tail-Ring_at new xs ys r o =
      rw ((Chain-next m h xs ys h r.chain).1) (insert_between-Ring new xs ys r o)

  -- Behind the last entry of `xs`, or at the front if there is none.
  pub list_add-Ring_at :
      (new : Ptr) (xs ys : List Ptr)
      → Ring m h (xs ++ ys)
      → new ∉ (h ∷ (xs ++ ys))
      → Ring (list_add new (last_of h xs) m) h (xs ++ new ∷ ys)
  unfolding list_add
  list_add-Ring_at new xs ys r o =
      rw ((Chain-next m h xs ys h r.chain).0) (insert_between-Ring new xs ys r o)

  pub bridge-Ring :
      (xs : List Ptr) (x : Ptr) (ys : List Ptr)
      → Ring m h (xs ++ x ∷ ys)
      → Ring (bridge (m.prev x) (m.next x) m) h (xs ++ ys)
  bridge-Ring xs x ys r =
      let e = Chain-neighbours m h xs x ys h r.chain in
      let d = Distinct-remove (h ∷ xs) x ys r.distinct in
      rw (e.0, e.1)
        (record {
          chain = Chain-remove m h xs x ys h r.chain r.distinct r.distinct.0;
          distinct = d.0;
        })

  pub list_empty-Ring : (xs : List Ptr) → Ring m h xs → list_empty h m ≡ is_nil xs
  unfolding list_empty
  list_empty-Ring [] r = ground (arith, r.chain)
  list_empty-Ring (x ∷ xs) r = ground (arith, r.chain, r.distinct)

  pub bridge-other :
      (xs : List Ptr) (x : Ptr) (ys : List Ptr) (a : Ptr)
      → Ring m h (xs ++ x ∷ ys)
      → a ∉ (h ∷ (xs ++ x ∷ ys))
      → let m' = bridge (m.prev x) (m.next x) m in (m'.next a ≡ m.next a) × (m'.prev a ≡ m.prev a)
  unfolding bridge
  bridge-other xs x ys a r o =
      let e = Chain-neighbours m h xs x ys h r.chain in
      (
        ground (arith, e, last_of-ne h xs (x ∷ ys) a o),
        ground (arith, e, first_of_list-ne [] ys h a, has-append a xs (x ∷ ys)),
      )

-- A ring does not see stores at addresses that are not on it.
pub Ring-frame :
    {m : Links} (m' : Links) {h : Ptr} {xs : List Ptr}
    → Ring m h xs
    → ((a : Ptr) → has a (h ∷ xs) ≡ true → (m'.next a ≡ m.next a) × (m'.prev a ≡ m.prev a))
    → Ring m' h xs
Ring-frame m' {h} {xs} r same = record {
  chain =
      frame m' h xs h r.chain (λ a i. (same a i).0)
        (λ a i. (same a (ground (arith, has-append a xs (h ∷ [])))).1);
  distinct = r.distinct;
}

module _ {m : Links} {h : Ptr} (xs : List Ptr) (x : Ptr) (ys : List Ptr)
    (r : Ring m h (xs ++ x ∷ ys)) where
  gone : x ∉ (h ∷ (xs ++ ys))
  gone = (Distinct-remove (h ∷ xs) x ys r.distinct).1

  -- The entry is taken out, and its own pointers are `NULL`.
  pub list_del-Ring :
      Ring (list_del x m) h (xs ++ ys)
      × ((list_del x m).next x ≡ null)
      × ((list_del x m).prev x ≡ null)
  unfolding list_del
  list_del-Ring = (
    Ring-frame _ (bridge-Ring xs x ys r) (λ a i. ground (arith, gone)),
    ground arith,
    ground arith,
  )

  -- If `x` is an entry of a circular list, then after `list_del_init` the list has the other
  -- entries in their order, and `x` heads an empty list.
  pub list_del_init-Ring : Ring (list_del_init x m) h (xs ++ ys) × Ring (list_del_init x m) x []
  unfolding list_del_init init_list_head
  list_del_init-Ring =
      (Ring-frame _ (bridge-Ring xs x ys r) (λ a i. ground (arith, gone)), init_list_head-Ring x _)

  -- If `x` is an entry of a circular list, then after `list_move_tail` to the head of that list it
  -- is the last entry, and the others keep their order.
  pub list_move_tail-Ring : Ring (list_move_tail x h m) h ((xs ++ ys) ++ x ∷ [])
  unfolding list_move_tail
  list_move_tail-Ring =
      list_add_tail-Ring_at {m = bridge (m.prev x) (m.next x) m} x (xs ++ ys) []
        (rw append-nil (bridge-Ring xs x ys r)) (rw append-nil gone)

  -- The entry is moved to the front of its own list.
  pub list_move-Ring : Ring (list_move x h m) h (x ∷ (xs ++ ys))
  unfolding list_move
  list_move-Ring = list_add-Ring_at x [] (xs ++ ys) (bridge-Ring xs x ys r) gone
