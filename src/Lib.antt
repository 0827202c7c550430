-- ===== src/Lib.antt =====
-- Verification of the operating systems homeworks (uth-operating-systems): two I/O schedulers for
-- the Linux block layer and the layer's queue that they plug into; a virtual machine with a
-- shortest-job-first process scheduler; the SLOB memory allocator; and a system call that lists
-- the ancestors of a process.
--
-- The parts, and how they interact.
--
-- - Links: the circular doubly linked lists of hw2/Scheduler_VM/list.h, which are the kernel's
--   `struct list_head`. A memory is a record of two maps, `next` and `prev`, from addresses to
--   addresses; each function of list.h is a function of that memory with the same stores in the
--   same order (`__list_add` is `insert_between`, `__list_del` is `bridge`, `__list_splice` is
--   `splice_after`). Links/Chain relates a memory to a list of addresses (`Ring m h xs`: following
--   `next` from the head `h` meets `xs` and comes back to `h`, and `prev` is the way back),
--   Links/Ops and Links/Splice state what the operations do to it.
-- - Elevator: the queue of the block layer, hw4/elevator.c. The state is `Queue`: the links of the
--   requests, the requests, the dispatch queue's head, the merge hash and the counters. Hash is
--   `elv_rqhash_*`; Dispatch is `elv_dispatch_sort` and `elv_dispatch_add_tail`; Add is
--   `__elv_add_request` (`elv_add_request`) and `elv_requeue_request`; Drain is
--   `elv_drain_elevator`; Merge is `elv_merge`, `elv_merged_request` and `elv_merge_requests`.
--   Scheduler is the interface between this layer and the I/O schedulers: the function pointers of
--   `struct elevator_ops` (`ElevatorOps`) and the contract on them (`IsScheduler`). Drain and
--   Insertion take a scheduler with the contract as a parameter; Clook and Noop fill it.
--   Find is about what `elv_rqhash_find` finds, Merged about `elv_merge_requests`,
--   Joined about `elv_merge` and
--   `elv_merged_request`. Tree is `elv_rb_*`, on which Search has the theorems, Hooks the functions
--   that call one function pointer, and `elv_abort_queue`. Place, Sort and Order describe the place that
--   `elv_dispatch_sort` finds on lists.
-- - Clook: the C-LOOK scheduler, hw4/clook-iosched.c. Noop: the no-op scheduler of
--   hw1/module/project1-iosched.c. Each function keeps its name.
-- - Registry: the elevator types and the elevator of a queue, hw4/elevator.c with
--   `struct elevator_type` and `struct elevator_queue` of hw4/elevator.h. The state is `System`, with
--   the queue of the Elevator files in it. Types is `elevator_find`, `elevator_get`, `elv_register`,
--   `elv_unregister`; Switch is `elevator_init`, `elevator_switch`, `__elevator_change`
--   (`elevator_change`), `elv_iosched_store` and `elv_iosched_show`. Names and Registration are about
--   the list of types, Change and Lookup about the elevator of a queue. Calls out of these sources
--   that the state does not show are recorded as `Event`s.
-- - Sched: the machine of hw2/Scheduler_VM. The state is `Vm`: the links, tasks and threads, the
--   runqueue and the globals of cpu.c. Sched/Sjf is sjf_lib.c, Sched/Schedule is schedule.c,
--   Sched/Tasks and Sched/Cpu are cpu.c with `createTask` and `createInfo` of cpuinit.c
--   (`cycle`, `interrupt`, `runcpu` as `run_cpu`, `taskEnd` as `task_end`, `forktask` as
--   `fork_task`, and so on). Runqueue, Choice, Decision, Lifecycle and Spawn hold the theorems.
-- - Profile: the parser of hw2/Scheduler_VM/cpuinit.c. Profile.antt has the file and `readint` and
--   `readstring`, Commands what each option does, Parse the loop of `readProfile` (`read_profile`,
--   `parse`). Progress is about what the reading functions leave to be read, Nice about the commands,
--   Ends about the whole parser, Edges about two ends of a file that it does not expect.
-- - Main: `main` of hw2/Scheduler_VM/cpu.c with `shutdowncpu`, `badshutdowncpu` and `cleanuptask`
--   (`cleanup_task`), which joins the machine and the parser: `to_profile` and `from_profile` say
--   which variables they share. Forest and Plant are about threads in a tree of lists, Cleanup about
--   freeing one, Nursery and Parsed about the threads of the parser, Layout about the first tasks,
--   Refused about the error path of `main`.
-- - Slob: the allocator of hw3/slob.c. The state is `Slob`: the `units` fields in memory, the pages
--   and their lists, and the two counters. Addresses count units of two bytes. FirstFit is
--   `slob_page_alloc`, Free is `slob_free`, Alloc is `slob_alloc`. Encoding states what the free
--   blocks look like in memory, Blocks relates a page's memory to a list of blocks, Take and Choice
--   are about an allocation from a page, Scan, Pages and Grow about the page that is chosen, Insert,
--   Coalesce and Release about freeing, Count, Invariant and Restore about the free
--   units of a page under both, Frame, Others and Freed about the pages that stay as they are, Heap,
--   System and Allocation about all pages. Front is `__do_kmalloc_node` (`kmalloc`), `kfree`, `ksize` and
--   the caches, Sizes is about the sizes that they remember.
-- - Roots: the system call of hw1/kernel_files/find_roots.c, on processes with a number and a parent.
-- - Base: the shared names, tests, list functions and results. Tests: the theorems at concrete
--   inputs.
--
-- Integers. Sectors and counters of w bits are natural numbers with the wrap-around written out
-- (`% 2 ^ w`). The signed counters of cpu.c are integers without a bound: the overflow of a signed
-- integer, which C leaves undefined, is not modelled. Floating point numbers are a parameter,
-- `Double`, of which the theorems use that `<` is a strict order.
--
-- Fuel. The loops that follow `next` or `prev` have fuel, and `out_of_fuel` is a result of its own.
-- A theorem on such a loop says that it returns, and asks for more fuel than the lists that are
-- walked have entries, which is enough as each step moves to the next entry. `run_cpu` has a
-- number of passes, since the machine runs until its tasks have ended. The parser of profiles has
-- fuel for each byte, `cleanuptask` for the depth of its recursion.
--
-- Not modelled: log lines and names of processes; locks, as every function of the elevator is
-- called with the queue's lock held; power management (CONFIG_PM_RUNTIME is off); the colours
-- of red-black trees; the merge hash of an elevator that is not the queue's; the contents of
-- allocated blocks, but for the size in front of a block of `kmalloc`; the system calls of hw3. What the code calls outside the
-- repository (`blk_attempt_req_merge`, `__blk_run_queue`, `blk_insert_flush`, the hash
-- function, the allocators) is an argument of the definitions.
pub mod Base
pub mod Links
pub mod Main
pub mod Elevator
pub mod Registry
pub mod Profile
pub mod Clook
pub mod Noop
pub mod Sched
pub mod Slob
pub mod Roots
mod Tests
