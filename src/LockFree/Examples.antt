-- ===== src/LockFree/Examples.antt =====
-- The queue of Ex5.c under a concrete schedule: tests, and the theorems at what it reaches.
use amp_project.Base.{
  Bool-cases, inl, inr, length, ◌+◌, ◌≤◌, ℕ, zero, suc, ◌≡◌, ◌≢◌, ◌<◌, refl, true, false, none,
  some, [], ◌∷◌, List, arith,
}
use amp_project.Heap.{Ptr, null}
use amp_project.Sequential.Memory.{World, list_at}
use amp_project.Threads.{broken, moved, put, took}
use amp_project.LockFree.{
  destroy_queue, is_odd, dequeued, end_scan, end_spin, end_reclaim, done, State, step, event, busy,
  enqueue, call,
}
use amp_project.LockFree.Counters.{AllKept, Reach, invoke, Reach-AllKept}
use amp_project.LockFree.Release.{alone, placed, wait_ends}
use amp_project.LockFree.Grace.{Behind, Stays, here, stepped, grace_period}
use amp_project.LockFree.Schedule.{
  block, initial, go, counts, IsMoved, moved-state_of, Fine, events, go-Reach, initial-Reach,
  enqueuing, filled, filled-Reach, began, loaded, waiting, waiting-Reach, waiting_at,
}
use amp_project.LockFree.System.{Reach-Inv}
use amp_project.LockFree.Destroy.{Freed, destroy_queue-returns}
use amp_project.LockFree.Safety.{refines_fifo, always_moves, free_lists_apart, Uses}
use amp_project.Sequential.Contents.{Holds}
use amp_project.Sequential.Shape.{Pool, IsFreeList}
use amp_project.Sequential.Memory.{FreeList}
use amp_project.Heap.{Owners, Value}
use amp_project.Heap.Seg.{◌∉◌}
use amp_project.Threads.{replay}

Reach-AllKept_example : AllKept waiting
Reach-AllKept_example = Reach-AllKept waiting-Reach

go-Stays :
    {u c : ℕ} {s : State} (s1 : State)
    → Stays u c s s1
    → (t : ℕ) (p : Ptr) → IsMoved (step (block p) t s1)
    → (go 1 t p s1).ctr u ≡ c
    → Stays u c s (go 1 t p s1)
unfolding go
go-Stays s1 path t p m e = stepped path t (block p) (moved-state_of (step (block p) t s1) m) e

-- Thread 0 looks at the counters, and thread 1 reads `Q->head`.
scanning : State
scanning = go 1 0 3 waiting

spinning : State
spinning = go 1 0 3 scanning

later : State
later = go 1 1 3 spinning

later_at : later.threads 0 ≡ end_spin counts (dequeued (some 10)) 1 1
unfolding go enqueuing filled began loaded waiting later spinning scanning
later_at = refl

scanning-Stays : Stays 1 1 waiting scanning
unfolding go enqueuing filled began loaded waiting scanning
scanning-Stays = go-Stays waiting (here refl) 0 3 tt refl

spinning-Stays : Stays 1 1 waiting spinning
unfolding go enqueuing filled began loaded waiting scanning spinning
spinning-Stays = go-Stays scanning scanning-Stays 0 3 tt refl

later-Stays : Stays 1 1 waiting later
unfolding go enqueuing filled began loaded waiting scanning spinning later
later-Stays = go-Stays spinning spinning-Stays 1 3 tt refl

waiting_size : waiting.world.queue.num_threads ≡ 2
unfolding go enqueuing filled began loaded waiting
waiting_size = refl

grace_period_example : Behind 1 1 (later.threads 0) × (later.retired 0 ≡ waiting.retired 0)
grace_period_example =
    grace_period later-Stays (omega arith) (rw waiting_size (omega arith)) refl waiting_at

-- Thread 1 finds the queue empty and returns.
released : State
released = go 5 1 3 waiting

released_threads :
    (released.threads 0 ≡ end_scan counts (dequeued (some 10)) 0)
    × (released.threads 1 ≡ done counts (dequeued none))
unfolding go enqueuing filled began loaded waiting released
released_threads = (refl, refl)

released_size : released.world.queue.num_threads ≡ 2
unfolding go enqueuing filled began loaded waiting released
released_size = refl

released_quiet :
    (u : ℕ) → u ≢ 0 → u < released.world.queue.num_threads → is_odd (released.ctr u) ≡ false
unfolding go enqueuing filled began loaded waiting released
released_quiet zero ne lt = absurd (ne refl)
released_quiet (suc zero) ne lt = refl
released_quiet (suc (suc u)) ne lt = absurd (let e = released_size in omega arith)

wait_ends_example :
    alone (suc released.world.queue.num_threads) 0 (block 3) released
    ≡ moved (placed 0 (end_reclaim counts (dequeued (some 10))) released)
wait_ends_example = wait_ends (block 3) 0 released released_quiet released_threads.0

refines_fifo_example :
    (xs : List Value) × (replay (took 0 10 ∷ put 0 10 ∷ []) ≡ some xs)
    × Holds waiting.world.heap waiting.world.queue.head xs
refines_fifo_example = refines_fifo waiting-Reach

-- Thread 0 is about to get a node, and `malloc` gives NULL.
allocating : State
allocating = go 1 0 2 (call 0 (enqueue counts 10) initial)

allocating-Reach : Reach 2 allocating []
unfolding go Fine events event allocating
allocating-Reach =
    go-Reach 1 0 2 _ (invoke initial-Reach 0 (enqueue counts 10) (omega arith) refl) (tt, refl, tt)

allocating_busy : busy (allocating.threads 0) ≡ true
unfolding go allocating
allocating_busy = refl

allocating_fresh : allocating.world.heap 2 ≡ none
unfolding go allocating
allocating_fresh = refl

-- With NULL from `malloc` the step is undefined behaviour.
allocating_broken : step (block null) 0 allocating ≡ broken
unfolding go allocating amp_project.Sequential.Memory.set_value
allocating_broken = refl

always_moves_example : (s' : State) × (step (block 2) 0 allocating ≡ moved s')
always_moves_example =
    always_moves allocating-Reach 0 allocating_busy (block 2) (omega arith) (λ _. allocating_fresh)

free_lists_apart_example :
    (own : Owners) × (pool : Pool) × ((t : ℕ) (l : FreeList)
      → list_at waiting.world.queue.free_lists t ≡ some l
      → IsFreeList waiting.world.heap own t l (pool t)
        × ((u : ℕ) (q : Ptr) → Uses (waiting.threads u) q → q ∉ pool t))
free_lists_apart_example = free_lists_apart waiting-Reach

filled_idle : (t : ℕ) → busy (filled.threads t) ≡ false
unfolding go enqueuing filled
filled_idle zero = refl
filled_idle (suc zero) = refl
filled_idle (suc (suc t)) = elim (Bool-cases (busy (filled.threads (suc (suc t))))) [
  | inl b ↦ absurd (let lt = (Reach-Inv filled-Reach).2.known (suc (suc t)) b in omega arith)
  | inr idle ↦ idle
]

destroy_queue-returns_example :
    (xs : List Value) × (replay (put 0 10 ∷ []) ≡ some xs)
    × (h : Holds filled.world.heap filled.world.queue.head xs) × (pool : Pool) × ((t : ℕ)
          (l : FreeList)
        → list_at filled.world.queue.free_lists t ≡ some l
        → IsFreeList filled.world.heap h.own t l (pool t))
    × ((t : ℕ) → filled.retired t ≡ [])
    × ((fuel : ℕ)
        → length xs + 2 ≤ fuel
        → ((t : ℕ) → length (pool t) < fuel)
        → (s' : State) × (destroy_queue fuel filled ≡ moved s')
          × Freed filled.world h.cells pool s'.world)
destroy_queue-returns_example = destroy_queue-returns filled-Reach filled_idle
