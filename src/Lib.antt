-- ===== src/Lib.antt =====
-- The concurrent queues of the AMP project (project_skeleton/src), an archived lock, and the library
-- benchmark beside them.
--
-- Base holds shared names, tests and lemmas on lists. Heap is the C heap of queue nodes, with an
-- owner for each node (a device of the specification) and list segments (Heap.Seg).
--
-- Sequential models Ex1.c: make_node, init_queue, destroy_queue, upcylce_node (here upcycle_node),
-- recycle_node, enq and deq are commands that read and write the heap and the one queue_t, and that
-- fault where C has undefined behaviour: NULL, freed memory, an index out of range. malloc and calloc
-- are arguments: what the call hands back. The loops of destroy_queue take fuel, one more than the
-- longest list being enough. A free list's size is a 32-bit pattern. Sequential.Shape says which world
-- stands for which queue, Pools and Ends prove the steps of enq and deq, Operations, Init and Destroy
-- the functions, and History relates sequences of calls to a FIFO list.
--
-- Lending models library.c: the four functions on struct one_thread_library, the critical section of
-- random_bench1 (turn), its loop for one thread, and the interleaving of the turns of all threads
-- (Lending.System). The number that random_r draws is an argument. The reduction in small_bench adds to a
-- result that was never written (reduce_counters, reported).
--
-- Batch models bench.h: the parser of batch size patterns over lists of bytes (a pointer is the rest of
-- the text), the assignment of specs to threads (Grammar says what a text may be, beside the parser), batch_spec_sample and parse_args. die_pattern and exit
-- are the result die; die carries which message it was. The values that parse_int_token lets through
-- are not negative, so the two later tests for negative sizes have no counterpart. The loop of
-- parse_spec_list takes fuel, one more than the length of the text. Batch.Runtime holds what the code
-- relies on of the C library as a record of parameters; that strtol stops inside its text is the
-- hypothesis StaysInside, and that it reads what printf writes the hypothesis ReadsBack.
--
-- Bench models run_benchmark (bench.c). run_passes is the loop of a thread, with the enqueue and the
-- dequeue batch of each pass and their counters; the number of passes is what the clock allows. What the
-- calls of enq and deq give back is an argument there, so that the passes hold for every version of the
-- queue; sent is a log that the program does not keep. The int counters are numbers, and a value of an
-- enq_count too large for int, where C leaves the product undefined, is its 32-bit pattern; the theorem on
-- the check asks that values fit. failed_enq_CAS_count, failed_deq_CAS_count and free_list_insertions,
-- which only enq and deq change, are left out here. Bench.Check is what follows the parallel region,
-- over the queue of Ex1.c: the threads' sums are added (in the order of their numbers), the queue is
-- emptied, the sums are compared, and the queue is destroyed. Balance has the sums over a log, and
-- Passed joins the two: the log is that of the events of Threads, as the theorems on the queues give it.
--
-- TwoLock models Ex4.c. Threads are a family of places in the code (Pc); a step of a thread is one
-- operation on a lock, or one access of shared memory that the other end may make too. With it goes what
-- the thread does on its own memory, and what the locks that it holds guard: Q->head under deq_lock,
-- Q->tail under enq_lock (deq_read, deq_test and enq_link have one access beside these, and all of
-- deq_retail is guarded):
-- access gives the steps on memory, sync those on the locks, step the next step of a thread. The
-- accesses are sequentially consistent and locks behave as OpenMP says (Threads); a lock that the thread
-- cannot get leaves it blocked. The text that Ex4.c shares with Ex1.c (make_node, init_queue,
-- destroy_queue, upcylce_node, recycle_node) is taken from Sequential. The nodes of the queue end at the
-- node that was linked last, which Q->tail reaches one step later (TwoLock.Invariant); Enqueue, Dequeue
-- and Locking prove the steps, System is the reachable states, and Schedule runs schedules.
--
-- GlobalLock models Ex2.c in the same way, with one step for all that a thread does under the lock, since
-- every other access of the queue is made under the lock too; recycle_node, which deq calls after it has
-- unset the lock, is a step of its own. GlobalLock.Bodies proves what happens under the lock, Invariant
-- the steps, System the reachable states.
--
-- LockFree models Ex5.c, one atomic access a step, sequentially consistent. Of what a thread does on its
-- own memory, mm_retire and the loop of mm_reclaim_all are one step each, and upcylce_node with the two
-- writes to the new node another; a list of retired_t is a list of nodes, counters are modulo 2^64. What malloc
-- gives, and whether a weak exchange fails for no reason, comes with each step (Env). The arrays ctr,
-- retired and retired_count have num_threads entries; an index behind them is undefined behaviour
-- (at_entry), and Ranges shows that the loop of the wait stays inside. LockFree.Memory has
-- the commands on nodes; Places and Counters the reachable states with the counters and the retired
-- nodes; Sizes, Grace and Release the wait of mm_op_end. Invariant says what holds between steps, with,
-- for each thread, the nodes that left the queue since its operation began (Ghost); Stable is what a step
-- leaves to the others, Change turns it into the invariant. NewNode, Enqueue, Link, Dequeue, Pop,
-- Managing and Reclaim prove the steps, System the reachable states; Destroy has destroy_queue, which runs
-- when the threads are done.
--
-- Peterson models lock_peterson and unlock_peterson of archive/Ex4_old.c, one shared access a step, for
-- one thread a side (the locks enq_lock and deq_lock around the calls admit one) and every schedule of
-- the two sides. The accesses are sequentially consistent, which volatile alone does not promise.
--
-- Archived models the queue functions of archive/Ex4_old.c for calls that do not overlap: the locks around
-- the text that they share with Ex1.c, which is taken from Sequential. The busy wait has fuel; with no
-- other call at work its test fails at once.
--
-- Not modelled: overlapping calls of the queue of Ex4_old.c, the timing and the output of bench.c
-- (write_results_line), main's loop over repetitions, the copy of the check for version 5,
-- print_configuration, the test programs and the plots. Signed overflow of the sizes of free lists and of
-- the counters of readers and of benchmark threads is not modelled: the sizes wrap, the counters are
-- numbers. In the reduction of library.c it is, as a sum that is not defined.
pub mod Base
pub mod Heap
pub mod Sequential
pub mod Lending
pub mod Batch
pub mod Bench
pub mod Peterson
pub mod Archived
pub mod Threads
pub mod TwoLock
pub mod GlobalLock
pub mod LockFree
