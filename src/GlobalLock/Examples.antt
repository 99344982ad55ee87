-- ===== src/GlobalLock/Examples.antt =====
-- The queue of Ex2.c under a concrete schedule: tests, and the theorems at what it reaches.
use amp_project.Base.{
  Bool-cases, inl, inr, ℕ, zero, suc, ◌+◌, ◌≤◌, ◌<◌, ◌≡◌, ◌≢◌, refl, true, false, Option, none,
  some, List, [], ◌∷◌, arith, length,
}
use amp_project.Heap.{Ptr, null, Value, node, Alloc, write}
use amp_project.Heap.Seg.{◌∉◌}
use amp_project.Sequential.Memory.{World, list_at}
use amp_project.Sequential.Shape.{Pool, IsQueue}
use amp_project.Sequential.Contents.{Holds}
use amp_project.Sequential.Destroy.{Destroyed, nodes}
use amp_project.Threads.{Outcome, broken, blocked, moved, raw, Event, put, took, missed, replay}
use amp_project.GlobalLock.{
  Pc, outside, deq_recycle, deq_done, enq_done, State, enqueue, dequeue, init_queue, destroy_queue,
  step, call, busy,
}
use amp_project.GlobalLock.System.{
  Reach-Inv, Reach, start, invoke, next, fifo_order, no_fault, recycled_apart, destroy_queue-idle,
}

abbrev block : Ptr → Alloc
block p = record { addr = p; contents = node 77 78 }

abbrev blank_world : World
blank_world = record {
  heap = λ _. none;
  queue = record { head = null; tail = null; free_lists = none; num_threads = 0 };
}

abbrev state_of : Outcome State → State
state_of (moved s) = s
state_of _ = record { world = blank_world; lock = raw; threads = λ _. outside }

initial : State
unfolding init_queue amp_project.Sequential.init_queue amp_project.Sequential.Memory.load
    amp_project.Sequential.Memory.set_value amp_project.Sequential.Memory.set_next
    amp_project.Sequential.Memory.malloc amp_project.Sequential.Memory.load_free_list
    amp_project.Sequential.Memory.store_free_list list_at amp_project.Sequential.Memory.list_set
    write
initial = state_of (init_queue (block 1) true 2 blank_world)

-- the state behind a step of thread `t`, with a block at `p` from `malloc`
go : (t : ℕ) (p : Ptr) → State → State
unfolding initial step amp_project.Sequential.upcycle_node amp_project.Sequential.enq
    amp_project.Sequential.unlink_node amp_project.Sequential.recycle_node
    amp_project.GlobalLock.enq_body amp_project.GlobalLock.deq_body
    amp_project.GlobalLock.recycle_node amp_project.GlobalLock.access amp_project.GlobalLock.sync
    amp_project.GlobalLock.step_at amp_project.GlobalLock.entry amp_project.Threads.update
    amp_project.GlobalLock.event call
go t p s = state_of (step (block p) t s)

initial-Reach : Reach 2 initial []
unfolding initial
initial-Reach = start (block 1) blank_world (omega arith) refl

-- Thread 0 enqueues 10, and thread 1 waits for the lock meanwhile; then thread 1 dequeues, and gives
-- the sentinel back after it has unset the lock.
abbrev called : State
called = call 1 (dequeue (some 7)) (call 0 (enqueue 10) initial)

called-Reach : Reach 2 called []
unfolding go
called-Reach =
    invoke (invoke initial-Reach 0 (enqueue 10) (omega arith) refl) 1 (dequeue (some 7))
      (omega arith) refl

abbrev locked : State
locked = go 0 2 called

locked-Reach : Reach 2 locked ([])
unfolding go
locked-Reach = next called-Reach 0 (block 2) (λ _. refl) refl

abbrev enqueued : State
enqueued = go 0 2 locked

enqueued-Reach : Reach 2 enqueued (put 0 10 ∷ [])
unfolding go
enqueued-Reach = next locked-Reach 0 (block 2) (λ _. refl) refl

abbrev released : State
released = go 0 3 enqueued

released-Reach : Reach 2 released (put 0 10 ∷ [])
unfolding go
released-Reach = next enqueued-Reach 0 (block 3) (λ _. refl) refl

abbrev taken_over : State
taken_over = go 1 3 released

taken_over-Reach : Reach 2 taken_over (put 0 10 ∷ [])
unfolding go
taken_over-Reach = next released-Reach 1 (block 3) (λ _. refl) refl

abbrev dequeued : State
dequeued = go 1 3 taken_over

dequeued-Reach : Reach 2 dequeued (took 1 10 ∷ put 0 10 ∷ [])
unfolding go
dequeued-Reach = next taken_over-Reach 1 (block 3) (λ _. refl) refl

abbrev recycling : State
recycling = go 1 3 dequeued

recycling-Reach : Reach 2 recycling (took 1 10 ∷ put 0 10 ∷ [])
unfolding go
recycling-Reach = next dequeued-Reach 1 (block 3) (λ _. refl) refl

abbrev final : State
final = go 1 3 recycling

final-Reach : Reach 2 final (took 1 10 ∷ put 0 10 ∷ [])
unfolding go
final-Reach = next recycling-Reach 1 (block 3) (λ _. refl) refl

waits : step (block 3) 1 locked ≡ blocked
unfolding go
waits = refl

recycling_at : recycling.threads 1 ≡ deq_recycle (some 7) 10 1
unfolding go
recycling_at = refl

-- Both calls have returned, and the counter of thread 1 went from 7 to 8.
final_threads : (final.threads 0 ≡ enq_done true) × (final.threads 1 ≡ deq_done (some 8) (some 10))
unfolding go
final_threads = (refl, refl)

final_idle : (t : ℕ) → busy (final.threads t) ≡ false
unfolding go
final_idle zero = refl
final_idle (suc zero) = refl
final_idle (suc (suc t)) = elim (Bool-cases (busy (final.threads (suc (suc t))))) [
  | inl b ↦ absurd (let lt = (Reach-Inv final-Reach).2.known (suc (suc t)) b in omega arith)
  | inr idle ↦ idle
]

locked_fresh : locked.world.heap 2 ≡ none
unfolding go
locked_fresh = refl

fifo_order_example :
    (xs : List Value) × (replay (took 1 10 ∷ put 0 10 ∷ []) ≡ some xs)
    × Holds recycling.world.heap recycling.world.queue.head xs
fifo_order_example = fifo_order recycling-Reach

no_fault_example : step (block 2) 0 locked ≢ broken
no_fault_example = no_fault locked-Reach 0 (block 2) (λ _. locked_fresh)

recycled_apart_example :
    ((xs : List Value) × (h : Holds recycling.world.heap recycling.world.queue.head xs) × (replay
          (took 1 10 ∷ put 0 10 ∷ [])
        ≡ some xs)
      × (1 ∉ h.cells))
    × ((u : ℕ) (c' : Option ℕ) (v' : Value) (q : Ptr)
        → u ≢ 1
        → recycling.threads u ≡ deq_recycle c' v' q
        → q ≢ 1)
recycled_apart_example = recycled_apart recycling-Reach 1 recycling_at

destroy_queue-idle_example :
    (xs : List Value) × (pool : Pool) × (is : IsQueue final.world pool xs) × (replay
        (took 1 10 ∷ put 0 10 ∷ [])
      ≡ some xs)
    × ((fuel : ℕ)
        → length xs + 2 ≤ fuel
        → ((t : ℕ) → length (pool t) < fuel)
        → (s' : State) × (destroy_queue fuel final ≡ moved s')
          × Destroyed final.world (nodes is) pool s'.world
          × (s'.lock ≡ raw))
destroy_queue-idle_example = destroy_queue-idle final-Reach final_idle
