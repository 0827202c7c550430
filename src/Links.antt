-- ===== src/Links.antt =====
-- The circular doubly linked lists of hw2/Scheduler_VM/list.h. A `struct list_head` is an address;
-- the memory gives the two pointers of each address. The same lists of the kernel, linux/list.h,
-- serve hw1, hw3 and hw4.
pub mod Chain
pub mod Ops
pub mod Splice
use uth_operating_systems.Base.{ℕ, Bool, ◌==◌, if◌then◌else◌, update}

abbrev pub Ptr : Type 0
Ptr = ℕ

-- `NULL`, the value that `list_del` leaves behind.
abbrev pub null : Ptr
null = 0

-- `struct list_head` at every address.
pub record Links : Type 0 where
  pub next : Ptr → Ptr
  pub prev : Ptr → Ptr

-- `p->next = v` and `p->prev = v`.
abbrev pub set_next : Ptr → Ptr → Links → Links
set_next p v m = record m { next = update m.next p v }

abbrev pub set_prev : Ptr → Ptr → Links → Links
set_prev p v m = record m { prev = update m.prev p v }

-- `INIT_LIST_HEAD`
unfoldable pub init_list_head : Ptr → Links → Links
init_list_head p m = set_prev p p (set_next p p m)

-- `__list_add`: the four stores, in the order of the code.
unfoldable pub insert_between : Ptr → Ptr → Ptr → Links → Links
insert_between new prev next m =
    set_next prev new (set_prev new prev (set_next new next (set_prev next new m)))

unfoldable pub list_add : Ptr → Ptr → Links → Links
unfolding insert_between
list_add new head m = insert_between new head (m.next head) m

unfoldable pub list_add_tail : Ptr → Ptr → Links → Links
unfolding insert_between
list_add_tail new head m = insert_between new (m.prev head) head m

-- `__list_del`
unfoldable pub bridge : Ptr → Ptr → Links → Links
bridge prev next m = set_next prev next (set_prev next prev m)

unfoldable pub list_del : Ptr → Links → Links
unfolding bridge
list_del entry m =
    set_prev entry null (set_next entry null (bridge (m.prev entry) (m.next entry) m))

unfoldable pub list_del_init : Ptr → Links → Links
unfolding bridge init_list_head
list_del_init entry m = init_list_head entry (bridge (m.prev entry) (m.next entry) m)

unfoldable pub list_move : Ptr → Ptr → Links → Links
unfolding bridge list_add
list_move list head m = list_add list head (bridge (m.prev list) (m.next list) m)

unfoldable pub list_move_tail : Ptr → Ptr → Links → Links
unfolding bridge list_add_tail
list_move_tail list head m = list_add_tail list head (bridge (m.prev list) (m.next list) m)

unfoldable pub list_empty : Ptr → Links → Bool
list_empty head m = m.next head == head

-- `__list_splice`: `first`, `last` and `at` are read before the first store.
unfoldable pub splice_after : Ptr → Ptr → Links → Links
splice_after list head m =
    let first = m.next list in
    let last = m.prev list in
    let at = m.next head in
    set_prev at last (set_next last at (set_next head first (set_prev first head m)))

unfoldable pub list_splice : Ptr → Ptr → Links → Links
unfolding list_empty splice_after
list_splice list head m = if list_empty list m then m else splice_after list head m

unfoldable pub list_splice_init : Ptr → Ptr → Links → Links
unfolding list_empty splice_after init_list_head
list_splice_init list head m =
    if list_empty list m then m else init_list_head list (splice_after list head m)
