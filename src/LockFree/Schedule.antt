-- ===== src/LockFree/Schedule.antt =====
-- The queue of Ex5.c under a concrete schedule of two threads.
use amp_project.Base.{ℕ, zero, suc, ◌≡◌, refl, true, false, none, some, [], ◌∷◌, ◌++◌, List, arith}
use amp_project.Heap.{Ptr, null, node, write}
use amp_project.Sequential.Memory.{World, list_at}
use amp_project.Threads.{Outcome, broken, blocked, moved, update, Event, put, took, missed}
use amp_project.LockFree.{
  is_odd, Counts, dequeued, enqueued, Pc, outside, end_scan, end_spin, end_reclaim, done, State,
  Env, init_queue, step, event, Call, enqueue, dequeue, call,
}
use amp_project.LockFree.Counters.{Reach, start, invoke, next}

abbrev pub block : Ptr → Env
block p = record { block = record { addr = p; contents = node 77 78 }; spurious = false }

abbrev pub blank_world : World
blank_world = record {
  heap = λ _. none;
  queue = record { head = null; tail = null; free_lists = none; num_threads = 0 };
}

abbrev pub state_of : Outcome State → State
state_of (moved s) = s
state_of _ = record {
  world = blank_world;
  ctr = λ _. 0;
  retired = λ _. [];
  retired_count = λ _. 0;
  threads = λ _. outside;
}

unfoldable pub initial : State
unfolding init_queue amp_project.Sequential.init_queue amp_project.Sequential.Memory.load
    amp_project.Sequential.Memory.set_value amp_project.Sequential.Memory.set_next
    amp_project.Sequential.Memory.malloc amp_project.Sequential.Memory.load_free_list
    amp_project.Sequential.Memory.store_free_list list_at amp_project.Sequential.Memory.list_set
    write
initial = state_of (init_queue (record { addr = 1; contents = node 77 78 }) true 2 blank_world)

-- the state behind steps of thread `t`, with a block at `p` from `malloc`
unfoldable pub go : (steps t : ℕ) (p : Ptr) → State → State
unfolding initial step amp_project.LockFree.scan amp_project.Sequential.recycle_node
    amp_project.Sequential.make_node amp_project.LockFree.step_at amp_project.LockFree.access
    amp_project.LockFree.manage amp_project.LockFree.entry amp_project.LockFree.Memory.upcycle_node
    amp_project.LockFree.Memory.recycle_node amp_project.LockFree.Memory.make_node
    amp_project.LockFree.Memory.reclaim amp_project.LockFree.Memory.cas_head
    amp_project.LockFree.Memory.cas_tail amp_project.LockFree.Memory.cas_next call
    amp_project.Threads.update
go zero t p s = s
go (suc k) t p s = state_of (step (block p) t (go k t p s))

pub counts : Counts
counts = record { failed = some 0; inserted = some 0 }

abbrev pub IsMoved : Outcome State → Type 0
IsMoved (moved s) = Unit {0}
IsMoved _ = ⊥

pub moved-state_of : (o : Outcome State) → IsMoved o → o ≡ moved (state_of o)
moved-state_of (moved s) m = refl
moved-state_of broken m = absurd m
moved-state_of blocked m = absurd m

-- Each of the steps is possible.
unfoldable pub Fine : (steps t : ℕ) (p : Ptr) → State → Type 0
Fine zero t p s = Unit {0}
Fine (suc k) t p s =
    Fine k t p s × ((go k t p s).world.heap p ≡ none) × IsMoved (step (block p) t (go k t p s))

unfoldable pub events : (steps t : ℕ) (p : Ptr) → State → List Event → List Event
events zero t p s log = log
events (suc k) t p s log =
    event t ((go k t p s).threads t) ((go (suc k) t p s).threads t) ++ events k t p s log

pub go-Reach :
    {n : ℕ} (k t : ℕ) (p : Ptr) (s : State) {log : List Event}
    → Reach n s log
    → Fine k t p s
    → Reach n (go k t p s) (events k t p s log)
unfolding go Fine events
go-Reach zero t p s r fine = r
go-Reach (suc k) t p s r (fine, fresh, m) =
    next (go-Reach k t p s r fine) t (block p) (λ _. fresh)
      (moved-state_of (step (block p) t (go k t p s)) m)

pub initial-Reach : Reach 2 initial []
unfolding initial
initial-Reach = start (record { addr = 1; contents = node 77 78 }) blank_world (omega arith) refl

-- Thread 0 enqueues 10; thread 1 begins to dequeue, and thread 0 dequeues 10 meanwhile.
unfoldable pub enqueuing : State
enqueuing = go 2 0 2 (call 0 (enqueue counts 10) initial)

pub enqueuing-Reach : Reach 2 enqueuing []
unfolding go Fine events event enqueuing
enqueuing-Reach =
    go-Reach 2 0 2 _ (invoke initial-Reach 0 (enqueue counts 10) (omega arith) refl)
      ((tt, refl, tt), refl, tt)

unfoldable pub filled : State
filled = go 6 0 3 enqueuing

pub filled-Reach : Reach 2 filled (put 0 10 ∷ [])
unfolding go Fine events event enqueuing filled
filled-Reach =
    go-Reach 6 0 3 enqueuing enqueuing-Reach
      ((((((tt, refl, tt), refl, tt), refl, tt), refl, tt), refl, tt), refl, tt)

pub filled_at : filled.threads 0 ≡ done counts (enqueued true)
unfolding go enqueuing filled
filled_at = refl

unfoldable pub began : State
began = go 1 1 3 (call 1 (dequeue counts) filled)

pub began-Reach : Reach 2 began (put 0 10 ∷ [])
unfolding go Fine events event enqueuing filled began
began-Reach =
    go-Reach 1 1 3 _ (invoke filled-Reach 1 (dequeue counts) (omega arith) refl) (tt, refl, tt)

unfoldable pub loaded : State
loaded = go 4 0 3 (call 0 (dequeue counts) began)

pub loaded-Reach : Reach 2 loaded (put 0 10 ∷ [])
unfolding go Fine events event enqueuing filled began loaded
loaded-Reach =
    go-Reach 4 0 3 _ (invoke began-Reach 0 (dequeue counts) (omega arith) refl)
      ((((tt, refl, tt), refl, tt), refl, tt), refl, tt)

-- thread 0 waits for thread 1, with the node 1 retired
unfoldable pub waiting : State
waiting = go 5 0 3 loaded

pub waiting-Reach : Reach 2 waiting (took 0 10 ∷ put 0 10 ∷ [])
unfolding go Fine events event enqueuing filled began loaded waiting
waiting-Reach =
    go-Reach 5 0 3 loaded loaded-Reach
      (((((tt, refl, tt), refl, tt), refl, tt), refl, tt), refl, tt)

pub waiting_at : waiting.threads 0 ≡ end_scan counts (dequeued (some 10)) 0
unfolding go enqueuing filled began loaded waiting
waiting_at = refl

pub waiting_retired : waiting.retired 0 ≡ 1 ∷ []
unfolding go enqueuing filled began loaded waiting
waiting_retired = refl
