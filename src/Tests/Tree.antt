-- ===== src/Tests/Tree.antt =====
-- A tree of three requests, and a dispatch queue
-- whose requests are taken off when they end.
use uth_operating_systems.Base.{ℕ, ◌*◌, ◌≡◌, refl, arith, []}
use uth_operating_systems.Links.{Ptr, list_del_init}
use uth_operating_systems.Links.Ops.{list_del_init-Ring}
use uth_operating_systems.Elevator.Tree.{Tree, empty, node, items, elv_rb_add, elv_rb_find}
use uth_operating_systems.Elevator.Search.{
  Ordered, Found, insert, elv_rb_find-Found, elv_rb_add-insert,
}
use uth_operating_systems.Elevator.Hooks.{Ending, abort_request, TakesOff}

-- Request `n` begins at sector 10 * n.
abbrev ten_times : Ptr → ℕ
ten_times n = 10 * n

abbrev tree : Tree
tree = node (node empty 1 empty) 3 (node empty 6 empty)

found_six : elv_rb_find ten_times 60 tree ≡ 6
unfolding elv_rb_find
found_six = refl

elv_rb_find-Found_example : Found ten_times 60 (items tree) (elv_rb_find ten_times 60 tree)
elv_rb_find-Found_example = elv_rb_find-Found ten_times 60 tree (omega arith)

elv_rb_add-insert_example :
    (items (elv_rb_add ten_times (λ x t. t) 4 tree) ≡ insert ten_times 4 (items tree))
    × Ordered ten_times (items (elv_rb_add ten_times (λ x t. t) 4 tree))
elv_rb_add-insert_example =
    elv_rb_add-insert ten_times (λ x t. t) 4 tree (λ x t. refl) (omega arith)

-- Starting a request takes it off the queue.
abbrev dequeuing : Ending
dequeuing = record {
  blk_abort_flushes = λ q. q;
  blk_start_request = λ rq q. record q { links = list_del_init rq q.links };
  blk_end_request_all = λ rq q. q;
}

dequeuing-TakesOff : TakesOff dequeuing
unfolding abort_request
dequeuing-TakesOff q rq xs r = (refl, (list_del_init-Ring [] rq xs r).0)
