-- ===== src/Elevator/Tree.antt =====
-- The red-black tree helpers of hw4/elevator.c, and the hooks that call one function of the I/O
-- scheduler. A tree in memory is a tree of requests here; its colours and the rotations are those
-- of the kernel's rbtree, whose functions are arguments.
use uth_operating_systems.Base.{
  ℕ, List, [], ◌∷◌, ◌++◌, not, Option, none, some, Run, ok, bug, ltb, if◌then◌else◌, has,
}
use uth_operating_systems.Links.{Ptr, null}

pub data Tree : Type 0 where
  empty : Tree
  node : Tree → Ptr → Tree → Tree

-- The requests in the order of the tree.
abbrev pub items : Tree → List Ptr
items empty = []
items (node l rq r) = items l ++ rq ∷ items r

-- `blk_rq_pos` of each request is a parameter.
module _ (pos : Ptr → ℕ) where
  -- The loop of `elv_rb_add` and `rb_link_node`: the new node is a leaf where the loop ends.
  unfoldable pub link_node : Ptr → Tree → Tree
  link_node rq empty = node empty rq empty
  link_node rq (node l x r) =
      let left = node (link_node rq l) x r in
      let right = node l x (link_node rq r) in if ltb (pos rq) (pos x) then left else right

  -- `recolor` is `rb_insert_color`.
  unfoldable pub elv_rb_add : (recolor : Ptr → Tree → Tree) → Ptr → Tree → Tree
  unfolding link_node
  elv_rb_add recolor rq root = recolor rq (link_node rq root)

  unfoldable pub elv_rb_find : (sector : ℕ) → Tree → Ptr
  elv_rb_find sector empty = null
  elv_rb_find sector (node l rq r) =
      let left = elv_rb_find sector l in
      let right = elv_rb_find sector r in
      if ltb sector (pos rq) then left else if ltb (pos rq) sector then right else rq

-- `erase` is `rb_erase`; a node that is in no tree is empty.
unfoldable pub elv_rb_del : (erase : Ptr → Tree → Tree) → Ptr → Tree → Run Tree
elv_rb_del erase rq root = if not (has rq (items root)) then bug else ok (erase rq root)

-- `rb_prev` and `rb_next` answer a node, or none where there is none.
unfoldable pub elv_rb_former_request : (rb_prev : Ptr → Option Ptr) → Ptr → Ptr
elv_rb_former_request rb_prev rq = elim (rb_prev rq) [ some n ↦ n | none ↦ null ]

unfoldable pub elv_rb_latter_request : (rb_next : Ptr → Option Ptr) → Ptr → Ptr
elv_rb_latter_request rb_next rq = elim (rb_next rq) [ some n ↦ n | none ↦ null ]
