-- ===== src/Bench/PassedExample.antt =====
-- The end of `run_benchmark` in bench.c after a run of two threads: thread 0 enqueued 0 and 2, thread
-- 1 enqueued 1 and dequeued 0 and 2; its free list has the two nodes that it unlinked.
use amp_project.Base.{
  ℕ, zero, suc, ◌+◌, ◌%◌, ◌^◌, ◌<◌, ◌≡◌, refl, none, some, List, [], ◌∷◌, arith, length,
}
use amp_project.Heap.{null, Heap, node, Owners, nobody, queued, free_of, write, assign}
use amp_project.Heap.Seg.{Points, Seg, nil, cons}
use amp_project.Threads.{Event, put, took, replay}
use amp_project.Sequential.Memory.{World, FreeList, free_list, list_at}
use amp_project.Sequential.Shape.{Pool, repool, IsQueue, IsFreeList, Yields}
use amp_project.Sequential.Destroy.{Destroyed, nodes}
use amp_project.Bench.{Tally, new_tally, value_of, widen}
use amp_project.Bench.Balance.{added, AreBelow}
use amp_project.Bench.Check.{passed, finish_benchmark}
use amp_project.Bench.Passed.{Emptied, AllTell, finish_benchmark-passed}

abbrev run_log : List Event
run_log = took 1 2 ∷ took 1 0 ∷ put 1 1 ∷ put 0 2 ∷ put 0 0 ∷ []

abbrev run_tallies : List Tally
run_tallies =
    record new_tally { enq_count = 2; sent = 0 ∷ 2 ∷ [] }
    ∷ record new_tally { enq_count = 1; sent = 1 ∷ []; deq_count = 2; dequeue_sum = 2 }
    ∷ []

abbrev run_heap : Heap
run_heap =
    let spare : Heap = write (write (λ _. none) 1 (some (node 0 null))) 2 (some (node 0 1)) in
    write (write spare 3 (some (node 2 4))) 4 (some (node 1 null))

abbrev run_world : World
run_world = record {
  heap = run_heap;
  queue = record {
    head = 3;
    tail = 4;
    free_lists = some (free_list null 0 ∷ free_list 2 2 ∷ []);
    num_threads = 2;
  };
}

abbrev run_own : Owners
run_own =
    let spare : Owners = assign (assign (λ _. nobody) 1 (free_of 1)) 2 (free_of 1) in
    assign (assign spare 3 queued) 4 queued

abbrev run_pool : Pool
run_pool = repool (λ _. []) 1 ((2, 0) ∷ (1, 0) ∷ [])

run_lists :
    (t : ℕ) (l : FreeList)
    → list_at run_world.queue.free_lists t ≡ some l
    → IsFreeList run_heap run_own t l (run_pool t)
unfolding list_at repool write assign
run_lists zero l e =
    let same : l ≡ free_list null 0 = cc e in
    rw same (record { chain = nil; head = refl; size = refl })
run_lists (suc zero) l e =
    let same : l ≡ free_list 2 2 = cc e in
    rw same (record {
      chain = cons (ground arith) refl (cons (ground arith) refl nil);
      head = refl;
      size = refl;
    })
run_lists (suc (suc t)) l e = cc e

run_arrays : (t : ℕ) → t < 2 → (l : FreeList) × (list_at run_world.queue.free_lists t ≡ some l)
unfolding list_at
run_arrays zero lt = (_, refl)
run_arrays (suc zero) lt = (_, refl)
run_arrays (suc (suc t)) lt = absurd (omega arith)

run_chain : Seg run_heap run_own queued 4 ((3, 2) ∷ [])
unfolding write assign
run_chain = cons (ground arith) refl nil

run_back : Points run_heap run_own queued 4 1 null
unfolding write assign
run_back = ground arith

abbrev run-IsQueue : IsQueue run_world run_pool (1 ∷ [])
run-IsQueue = record {
  own = run_own;
  front = (3, 2) ∷ [];
  last = 1;
  sentinel = 2;
  contents = refl;
  shape = record {
    chain = run_chain;
    head = refl;
    back = run_back;
    apart = refl;
    arrays = run_arrays;
    lists = run_lists;
  };
}

run_replay : replay run_log ≡ some (1 ∷ [])
unfolding replay amp_project.Threads.apply_after amp_project.Threads.apply
    amp_project.Threads.take_oldest
run_replay = refl

run_below : AreBelow 2 run_log
run_below = (omega arith, (omega arith, (omega arith, (omega arith, (omega arith, tt)))))

run_tell : AllTell 2 0 run_log run_tallies
unfolding value_of widen
run_tell = (
  record { logged = refl; sent = refl; dequeued = refl; fits = omega arith },
  (record { logged = refl; sent = refl; dequeued = refl; fits = omega arith }, tt),
)

run_small : (t : ℕ) → length (run_pool t) + 1 < 5
unfolding repool
run_small zero = omega arith
run_small (suc zero) = omega arith
run_small (suc (suc t)) = grind arith

finish_benchmark-passed_example :
    Yields
      (λ v w'.
        (v ≡ passed (added run_log % 2 ^ 64))
        × ((w1 : World) × (e : Emptied run_world run_pool 1 w1) × Destroyed w1
              (nodes e.is)
              e.pool_after
              w'))
      (finish_benchmark 5 2 run_tallies run_world)
finish_benchmark-passed_example =
    finish_benchmark-passed run_log run_tallies run_replay run-IsQueue run_below run_tell refl refl
      (omega arith) 5 (omega arith) run_small
