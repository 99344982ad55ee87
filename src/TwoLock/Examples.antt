-- ===== src/TwoLock/Examples.antt =====
-- The queue of Ex4.c under a concrete schedule: tests, and the theorems at what it reaches.
use amp_project.Base.{
  ℕ, ◌+◌, ◌≤◌, ◌<◌, ◌≡◌, ◌≢◌, refl, zero, suc, true, false, Option, none, some, List, [], ◌∷◌,
  arith, length,
}
use amp_project.Heap.{Ptr, null, Value, node, Alloc, write}
use amp_project.Sequential.Memory.{World, list_at}
use amp_project.Sequential.Contents.{Holds}
use amp_project.Threads.{Outcome, broken, blocked, moved, Event, put, took, missed, replay, raw}
use amp_project.TwoLock.{
  Pc, State, Call, enqueue, dequeue, init_queue, destroy_queue, step, busy, deq_retail, deq_done,
  enq_done,
}
use amp_project.TwoLock.System.{Reach, start}
use amp_project.TwoLock.Invariant.{in_enq, in_deq}
use amp_project.TwoLock.Safety.{
  linearizable, never_broken, one_at_each_end, tail_store_void, destroy_queue-quiet,
}
use amp_project.TwoLock.Progress.{some_thread_moves}
use amp_project.Sequential.Shape.{Pool, IsQueue}
use amp_project.Sequential.Destroy.{Destroyed, nodes}
use amp_project.TwoLock.Schedule.{Turn, begin, go, play, play-Reach}

abbrev block : Ptr → Alloc
block p = record { addr = p; contents = node 77 78 }

abbrev blank_world : World
blank_world = record {
  heap = λ _. none;
  queue = record { head = null; tail = null; free_lists = none; num_threads = 0 };
}

abbrev or_else : Option (State × List Event) → State × List Event → State × List Event
or_else none d = d
or_else (some p) d = p

abbrev state_of : Outcome State → State
state_of (moved s) = s
state_of _ = record {
  world = blank_world;
  enq_lock = amp_project.Threads.raw;
  deq_lock = amp_project.Threads.raw;
  threads = λ _. amp_project.TwoLock.outside;
}

initial : State
unfolding init_queue amp_project.Sequential.init_queue amp_project.Sequential.Memory.load
    amp_project.Sequential.Memory.set_value amp_project.Sequential.Memory.set_next
    amp_project.Sequential.Memory.malloc amp_project.Sequential.Memory.load_free_list
    amp_project.Sequential.Memory.store_free_list list_at amp_project.Sequential.Memory.list_set
    write
initial = state_of (init_queue (block 1) true 2 blank_world)

run : List Turn → State × List Event → State × List Event
unfolding initial play amp_project.Sequential.upcycle_node amp_project.Sequential.recycle_node
    amp_project.TwoLock.upcycle_node amp_project.TwoLock.recycle_node amp_project.TwoLock.access
    amp_project.TwoLock.sync amp_project.TwoLock.step_at amp_project.TwoLock.entry
    amp_project.Threads.update
run turns p = or_else (play 2 turns p.0 p.1) (initial, [])

initial-Reach : Reach 2 initial []
unfolding initial
initial-Reach = start (block 1) blank_world (omega arith) refl

-- Thread 0 links its node; before it moves the tail, thread 1 takes the value, finds no successor,
-- and then has to wait for `enq_lock`.
abbrev overtaking : List Turn
overtaking =
    begin 0 (enqueue 10)
    ∷ begin 1 (dequeue (some 7))
    ∷ go 0 (block 2)
    ∷ go 0 (block 2)
    ∷ go 0 (block 3)
    ∷ go 0 (block 3)
    ∷ go 1 (block 3)
    ∷ go 1 (block 3)
    ∷ go 1 (block 3)
    ∷ go 1 (block 3)
    ∷ go 1 (block 3)
    ∷ []

-- Thread 0 moves the tail and gives the lock back, and thread 1 gets it.
abbrev handing_over : List Turn
handing_over = go 0 (block 3) ∷ go 0 (block 3) ∷ go 1 (block 3) ∷ []

abbrev finishing : List Turn
finishing = go 1 (block 3) ∷ go 1 (block 3) ∷ go 1 (block 3) ∷ go 1 (block 3) ∷ []

abbrev waiting : State × List Event
waiting = run overtaking (initial, [])

abbrev retailing : State × List Event
retailing = run handing_over waiting

abbrev final : State × List Event
final = run finishing retailing

waiting-Reach : Reach 2 waiting.0 waiting.1
unfolding run
waiting-Reach = play-Reach overtaking initial-Reach refl

retailing-Reach : Reach 2 retailing.0 retailing.1
unfolding run
retailing-Reach = play-Reach handing_over waiting-Reach refl

final-Reach : Reach 2 final.0 final.1
unfolding run
final-Reach = play-Reach finishing retailing-Reach refl

final_log : final.1 ≡ took 1 10 ∷ put 0 10 ∷ []
unfolding run
final_log = refl

-- Both calls have returned, and the counter of thread 1 went from 7 to 8.
final_threads :
    (final.0.threads 0 ≡ enq_done true) × (final.0.threads 1 ≡ deq_done (some 8) (some 10))
unfolding run
final_threads = (refl, refl)

final_quiet : (t : ℕ) → busy (final.0.threads t) ≡ false
unfolding run
final_quiet zero = refl
final_quiet (suc zero) = refl
final_quiet (suc (suc t)) = ground arith

waiting_blocked : step (block 3) 1 waiting.0 ≡ blocked
unfolding run step
waiting_blocked = refl

retailing_at : retailing.0.threads 1 ≡ deq_retail (some 7) 1 10
unfolding run
retailing_at = refl

waiting_busy : busy (waiting.0.threads 1) ≡ true
unfolding run
waiting_busy = refl

waiting_fresh : waiting.0.world.heap 3 ≡ none
unfolding run
waiting_fresh = refl

linearizable_example :
    (xs : List Value) × (replay final.1 ≡ some xs)
    × Holds final.0.world.heap final.0.world.queue.head xs
linearizable_example = linearizable final-Reach

never_broken_example : step (block 3) 0 waiting.0 ≢ broken
never_broken_example = never_broken waiting-Reach 0 (block 3) (λ _. waiting_fresh)

one_at_each_end_example :
    (in_enq (waiting.0.threads 0) ≡ true → in_enq (waiting.0.threads 1) ≡ true → ◌≡◌ {A = ℕ} 1 0)
    × (in_deq (waiting.0.threads 0) ≡ true → in_deq (waiting.0.threads 1) ≡ true → ◌≡◌ {A = ℕ} 1 0)
one_at_each_end_example = one_at_each_end waiting-Reach 0 1

tail_store_void_example :
    (s' : State) × (step (block 3) 1 retailing.0 ≡ moved s') × (s'.world ≡ retailing.0.world)
tail_store_void_example = tail_store_void retailing-Reach 1 (block 3) retailing_at

some_thread_moves_example :
    (u : ℕ) × (busy (waiting.0.threads u) ≡ true) × ((m : Alloc) → step m u waiting.0 ≢ blocked)
some_thread_moves_example = some_thread_moves waiting-Reach 1 waiting_busy

destroy_queue-quiet_example :
    (xs : List Value) × (pool : Pool) × (is : IsQueue final.0.world pool xs) × (replay final.1
      ≡ some xs)
    × ((fuel : ℕ)
        → length xs + 2 ≤ fuel
        → ((t : ℕ) → length (pool t) < fuel)
        → (s' : State) × (destroy_queue fuel final.0 ≡ moved s')
          × Destroyed final.0.world (nodes is) pool s'.world
          × (s'.enq_lock ≡ raw)
          × (s'.deq_lock ≡ raw))
destroy_queue-quiet_example = destroy_queue-quiet final-Reach final_quiet
