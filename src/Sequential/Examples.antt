-- ===== src/Sequential/Examples.antt =====
-- The queue of Ex1.c at concrete worlds: tests, and the theorems at inputs that meet their
-- hypotheses.
use amp_project.Base.{
  ℕ, zero, suc, ◌<◌, ◌≡◌, ◌≢◌, refl, true, Option, none, some, List, [], ◌∷◌, arith, length,
}
use amp_project.Heap.{
  Ptr, null, Value, Heap, node, Alloc, Owners, nobody, queued, free_of, write, assign,
}
use amp_project.Heap.Seg.{Points, Seg, nil, cons}
use amp_project.Sequential.{
  make_node, init_queue, enq, deq, destroy_queue, upcycle_node, recycle_node,
}
use amp_project.Sequential.Memory.{
  World, Queue, FreeList, free_list, Exec, ok, fault, Cmd, give, ◌>>=◌, ◌>>◌, list_at,
}
use amp_project.Sequential.Shape.{Pool, repool, IsQueue, IsFreeList, Yields, yields}
use amp_project.Sequential.Init.{init_queue-IsQueue}
use amp_project.Sequential.Operations.{enq-reuse, enq-malloc, deq-empty, deq-uncons}
use amp_project.Sequential.Destroy.{Destroyed, destroy_queue-Destroyed}
use amp_project.Sequential.History.{
  Call, Fifo, Admissible, enqueue, dequeue, enqueued, dequeued, perform_all, Refines, calls_spec,
  perform_all-calls_spec,
}

abbrev block : Ptr → Alloc
block p = record { addr = p; contents = node 77 78 }

abbrev blank_world : World
blank_world = record {
  heap = λ _. none;
  queue = record { head = null; tail = null; free_lists = none; num_threads = 0 };
}

-- `main` of a small client: the values come out in order, and the sentinel's node is used again.
client : Cmd (List (Option Value))
unfolding init_queue enq deq destroy_queue
client = do
  init_queue (block 1) true 2
  enq (block 2) 10 0
  enq (block 3) 20 1
  a ← deq 0 none
  enq (block null) 30 0
  b ← deq 1 none
  c ← deq 1 none
  d ← deq 1 (some 4)
  destroy_queue 9
  give (a.0 ∷ b.0 ∷ c.0 ∷ d.0 ∷ [])

client_output :
    Yields
      (λ out w.
        (out ≡ some 10 ∷ some 20 ∷ some 30 ∷ none ∷ [])
        × (w.heap 1 ≡ none)
        × (w.heap 2 ≡ none)
        × (w.heap 3 ≡ none))
      (client blank_world)
unfolding client amp_project.Sequential.Memory.load amp_project.Sequential.Memory.set_value
    amp_project.Sequential.Memory.set_next amp_project.Sequential.Memory.free
    amp_project.Sequential.Memory.malloc amp_project.Sequential.Memory.load_free_list
    amp_project.Sequential.Memory.store_free_list list_at amp_project.Sequential.Memory.list_set
    write
client_output = yields (refl, refl, refl, refl)

-- Thread 0 has one spare node, at 1; the sentinel is the node at 2, and the queue holds 20.
abbrev cells : Heap
cells =
    let tail_cell : Heap = write (λ _. none) 3 (some (node 20 null)) in
    let queue_cells : Heap = write tail_cell 2 (some (node 10 3)) in
    write queue_cells 1 (some (node 0 null))

abbrev pub world : World
world = record {
  heap = cells;
  queue = record {
    head = 2;
    tail = 3;
    free_lists = some (free_list 1 1 ∷ free_list null 0 ∷ []);
    num_threads = 2;
  };
}

abbrev own : Owners
own = assign (assign (assign (λ _. nobody) 1 (free_of 0)) 2 queued) 3 queued

abbrev pool : Pool
pool = repool (λ _. []) 0 ((1, 0) ∷ [])

world-lists :
    (t : ℕ) (l : FreeList)
    → list_at world.queue.free_lists t ≡ some l
    → IsFreeList cells own t l (pool t)
unfolding list_at repool write assign
world-lists zero l e =
    let same : l ≡ free_list 1 1 = cc e in
    rw same (record { chain = cons (ground arith) refl nil; head = refl; size = refl })
world-lists (suc zero) l e =
    let same : l ≡ free_list null 0 = cc e in
    rw same (record { chain = nil; head = refl; size = refl })
world-lists (suc (suc t)) l e = cc e

world-arrays : (t : ℕ) → t < 2 → (l : FreeList) × (list_at world.queue.free_lists t ≡ some l)
unfolding list_at
world-arrays zero lt = (_, refl)
world-arrays (suc zero) lt = (_, refl)
world-arrays (suc (suc t)) lt = absurd (omega arith)

world-chain : Seg cells own queued 3 ((2, 10) ∷ [])
unfolding write assign
world-chain = cons (ground arith) refl nil

world-back : Points cells own queued 3 20 null
unfolding write assign
world-back = ground arith

abbrev world-IsQueue : IsQueue world pool (20 ∷ [])
world-IsQueue = record {
  own = own;
  front = (2, 10) ∷ [];
  last = 20;
  sentinel = 10;
  contents = refl;
  shape = record {
    chain = world-chain;
    head = refl;
    back = world-back;
    apart = refl;
    arrays = world-arrays;
    lists = world-lists;
  };
}

pool-one : pool 1 ≡ []
unfolding repool
pool-one = refl

pool-zero : pool 0 ≡ (1, 0) ∷ []
unfolding repool
pool-zero = refl

fresh-four : cells 4 ≡ none
unfolding write
fresh-four = refl

init_queue-IsQueue_example :
    Yields
      (λ _ w'.
        IsQueue w' (λ _. []) []
        × (w'.queue.num_threads ≡ 3)
        × ((a : Ptr) → a ≢ 1 → w'.heap a ≡ none))
      (init_queue (block 1) true 3 blank_world)
init_queue-IsQueue_example = init_queue-IsQueue (block 1) 3 blank_world (omega arith)

enq-reuse_example :
    Yields
      (λ done w'.
        (done ≡ true) × (w'.queue.num_threads ≡ 2) × IsQueue w' (repool pool 0 []) (20 ∷ 30 ∷ []))
      (enq (block null) 30 0 world)
enq-reuse_example = enq-reuse world-IsQueue (block null) 30 0 (omega arith) pool-zero

enq-malloc_example :
    Yields
      (λ done w'. (done ≡ true) × (w'.queue.num_threads ≡ 2) × IsQueue w' pool (20 ∷ 30 ∷ []))
      (enq (block 4) 30 1 world)
enq-malloc_example =
    enq-malloc world-IsQueue (block 4) 30 1 (omega arith) pool-one (omega arith) fresh-four

deq-uncons_example :
    Yields
      (λ out w'.
        (out ≡ (some 20, some 8))
        × (w'.queue.num_threads ≡ 2)
        × ((u : Value) × IsQueue w' (repool pool 1 ((2, u) ∷ pool 1)) []))
      (deq 1 (some 7) world)
deq-uncons_example = deq-uncons (some 7) 1 world-IsQueue (omega arith)

pool-short : (t : ℕ) → length (pool t) < 3
unfolding repool
pool-short zero = omega arith
pool-short (suc t) = ground arith

destroy_queue-Destroyed_example :
    Yields (λ _. Destroyed world ((2, 10) ∷ (3, 20) ∷ []) pool) (destroy_queue 3 world)
destroy_queue-Destroyed_example = destroy_queue-Destroyed world-IsQueue 3 (omega arith) pool-short

abbrev pub one_spare : Fifo
one_spare = record { items = 20 ∷ []; spare = λ t. length (pool t) }

pub world-Refines : Refines 2 world one_spare
world-Refines = record { pool = pool; is = world-IsQueue; counts = λ t. refl; threads = refl }

abbrev pub calls : List Call
calls = enqueue (block 4) 30 1 ∷ dequeue 1 ∷ dequeue 0 ∷ dequeue 0 ∷ []

pub calls-Admissible : Admissible 2 calls world
calls-Admissible = (
  (omega arith, λ _. fresh-four),
  λ _ _ _. (omega arith, λ _ _ _. (omega arith, λ _ _ _. (omega arith, λ _ _ _. tt))),
)

perform_all-calls_spec_example :
    Yields (λ rs _. rs ≡ calls_spec calls one_spare) (perform_all calls world)
perform_all-calls_spec_example = perform_all-calls_spec calls world-Refines calls-Admissible

calls_output :
    calls_spec calls one_spare
    ≡ enqueued true ∷ dequeued (some 20) ∷ dequeued (some 30) ∷ dequeued none ∷ []
unfolding calls_spec repool
calls_output = refl

-- An empty queue, with no thread.
abbrev empty_world : World
empty_world = record {
  heap = write (λ _. none) 2 (some (node 10 null));
  queue = record { head = 2; tail = 2; free_lists = none; num_threads = 0 };
}

empty_world-IsQueue : IsQueue empty_world (λ _. []) []
unfolding write assign list_at
empty_world-IsQueue = record {
  own = assign (λ _. nobody) 2 queued;
  front = [];
  last = 10;
  sentinel = 10;
  contents = refl;
  shape = record {
    chain = nil;
    head = refl;
    back = ground arith;
    apart = refl;
    arrays = λ t lt. absurd (omega arith);
    lists = λ t l e. cc e;
  };
}

deq-empty_example : deq 0 (some 7) empty_world ≡ ok (none, some 7) empty_world
deq-empty_example = deq-empty (some 7) 0 empty_world-IsQueue
