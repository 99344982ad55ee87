-- ===== src/GlobalLock.antt =====
-- project_skeleton/src/Ex2.c: the queue with one lock. A step of a thread is an operation on the lock,
-- what it does while it has the lock, or `recycle_node`, which `deq` calls without the lock.
pub mod Bodies
pub mod Invariant
pub mod System
mod Examples
use amp_project.Base.{ℕ, Bool, true, false, Option, none, some, List, [], ◌∷◌, ◌==◌, if◌then◌else◌}
use amp_project.Heap.{Ptr, null, Value, Alloc}
use amp_project.Sequential
use amp_project.Sequential.Memory.{
  World, Exec, fault, starved, ok, Cmd, give, ◌>>=◌, ◌>>◌, load, queue,
}
use amp_project.Threads.{
  OmpLock, raw, unlocked, Outcome, broken, blocked, moved, set_lock, unset_lock, update, Event, put,
  took, missed,
}

-- Where a thread stands, with its local variables; `count` is `*free_list_insertion_count`.
pub data Pc : Type 0 where
  outside : Pc
  enq_start : (v : Value) → Pc
  enq_locked : (v : Value) → Pc
  enq_unlock : (result : Bool) → Pc
  enq_done : (result : Bool) → Pc
  deq_start : (count : Option ℕ) → Pc
  deq_locked : (count : Option ℕ) → Pc
  deq_unlock : (count : Option ℕ) (taken : Option (Value × Ptr)) → Pc
  deq_recycle : (count : Option ℕ) (v : Value) (sentinel : Ptr) → Pc
  deq_done : (count : Option ℕ) (result : Option Value) → Pc

-- The memory with the fields of `queue_t` but its lock, this, and the threads.
pub record State : Type 0 where
  pub world : World
  pub lock : OmpLock
  pub threads : ℕ → Pc

abbrev pub with_lock : Exec (Unit {0}) → Outcome State
with_lock (ok _ w) = moved (record { world = w; lock = unlocked; threads = λ _. outside })
with_lock _ = broken

abbrev pub without_lock : (ℕ → Pc) → Exec (Unit {0}) → Outcome State
without_lock pcs (ok _ w) = moved (record { world = w; lock = raw; threads = pcs })
without_lock pcs _ = broken

-- Ex2.c has the text of Ex1.c here, and initialises or destroys the lock at the end.
pub init_queue : Alloc → (got_array : Bool) → (num_threads : ℕ) → World → Outcome State
init_queue m got_array num_threads w = with_lock (Sequential.init_queue m got_array num_threads w)

pub destroy_queue : (fuel : ℕ) → State → Outcome State
destroy_queue fuel s = without_lock s.threads (Sequential.destroy_queue fuel s.world)

-- The text of Ex1.c again
unfoldable pub recycle_node : (tid : ℕ) → Ptr → (count : Option ℕ) → Cmd (Option ℕ)
recycle_node = Sequential.recycle_node

-- `enq` between its calls on the lock, which is `enq` of Ex1.c
unfoldable pub enq_body : Alloc → Value → (tid : ℕ) → Cmd Bool
enq_body = Sequential.enq

-- `deq` between its calls on the lock: nothing on an empty queue, else the value and the sentinel
pub deq_body : Cmd (Option (Value × Ptr))
deq_body = do
  q ← queue
  sentinel ← load q.head
  if sentinel.next == null then give none else do r ← Sequential.unlink_node; give (some r)

abbrev pub after : ℕ → State → Exec Pc → Outcome State
after t s (ok pc w) = moved (record s { world = w; threads = update s.threads t pc })
after t s fault = broken
after t s starved = broken

-- The steps on the memory.
pub access : Alloc → (t : ℕ) → Pc → Option (Cmd Pc)
unfolding enq_body deq_body recycle_node
access m t (enq_locked v) = some (do r ← enq_body m v t; give (enq_unlock r))
access m t (deq_locked c) = some (do taken ← deq_body; give (deq_unlock c taken))
access m t (deq_recycle c v p) = some (do c' ← recycle_node t p c; give (deq_done c' (some v)))
access m t pc = none

-- the place behind `omp_unset_lock` in `deq`
abbrev pub unlocked_deq : Option ℕ → Option (Value × Ptr) → Pc
unlocked_deq c none = deq_done c none
unlocked_deq c (some (v, p)) = deq_recycle c v p

-- The steps on the lock.
pub sync : (t : ℕ) → Pc → State → Outcome State
sync t (enq_start v) s =
    set_lock t s.lock λ l. record s { lock = l; threads = update s.threads t (enq_locked v) }
sync t (enq_unlock r) s =
    unset_lock t s.lock λ l. record s { lock = l; threads = update s.threads t (enq_done r) }
sync t (deq_start c) s =
    set_lock t s.lock λ l. record s { lock = l; threads = update s.threads t (deq_locked c) }
sync t (deq_unlock c taken) s =
    unset_lock t s.lock
      λ l. record s { lock = l; threads = update s.threads t (unlocked_deq c taken) }
sync t pc s = blocked

step_at : Alloc → ℕ → Pc → State → Outcome State
unfolding access sync
step_at m t pc s = elim (access m t pc) [ some c ↦ after t s (c s.world) | none ↦ sync t pc s ]

-- The next step of thread `t`; `m` is what `malloc` would hand back.
pub step : Alloc → ℕ → State → Outcome State
unfolding step_at
step m t s = step_at m t (s.threads t) s

pub data Call : Type 0 where
  enqueue : (v : Value) → Call
  dequeue : (count : Option ℕ) → Call

pub entry : Call → Pc
entry (enqueue v) = enq_start v
entry (dequeue c) = deq_start c

abbrev pub busy : Pc → Bool
busy outside = false
busy (enq_done r) = false
busy (deq_done c r) = false
busy _ = true

pub call : ℕ → Call → State → State
unfolding entry
call t c s = record s { threads = update s.threads t (entry c) }

-- Calls take effect while they have the lock.
pub event : (t : ℕ) (before after : Pc) → List Event
event t (enq_locked v) (enq_unlock true) = put t v ∷ []
event t (deq_locked c) (deq_unlock c' none) = missed t ∷ []
event t (deq_locked c) (deq_unlock c' (some (v, p))) = took t v ∷ []
event t _ _ = []
