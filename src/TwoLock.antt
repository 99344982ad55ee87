-- ===== src/TwoLock.antt =====
-- project_skeleton/src/Ex4.c: the queue with a lock for each end. Each thread takes one step at a
-- time: an operation on a lock, or an access of shared memory that the other end may make too, with
-- what it does on its own memory and on what its locks guard.
pub mod Invariant
pub mod Change
pub mod Enqueue
pub mod Dequeue
pub mod Locking
pub mod System
pub mod Safety
pub mod Progress
pub mod Schedule
mod Examples
use amp_project.Base.{ℕ, Bool, true, false, Option, none, some, List, [], ◌∷◌, ◌==◌, if◌then◌else◌}
use amp_project.Heap.{Ptr, null, Value, Alloc}
use amp_project.Sequential
use amp_project.Sequential.Memory.{
  World, Exec, fault, starved, ok, Cmd, give, ◌>>=◌, ◌>>◌, load, set_value, set_next, queue,
  set_head, set_tail,
}
use amp_project.Threads.{
  OmpLock, raw, unlocked, locked_by, Outcome, broken, blocked, moved, set_lock, unset_lock, update,
  Event, put, took, missed,
}

-- Ex4.c has the text of Ex1.c for the nodes and the free lists.
unfoldable pub upcycle_node : Alloc → (tid : ℕ) → Cmd Ptr
upcycle_node = Sequential.upcycle_node

unfoldable pub recycle_node : (tid : ℕ) → Ptr → (count : Option ℕ) → Cmd (Option ℕ)
recycle_node = Sequential.recycle_node

-- Where a thread stands, with its local variables; `count` is `*free_list_insertion_count`.
pub data Pc : Type 0 where
  outside : Pc
  -- `enq`: before omp_set_lock, upcylce_node, the stores to the node, `Q->tail->next = new_node`,
  -- `Q->tail = new_node` and omp_unset_lock
  enq_start : (v : Value) → Pc
  enq_alloc : (v : Value) → Pc
  enq_fill : (v : Value) (new_node : Ptr) → Pc
  enq_link : (v : Value) (new_node : Ptr) → Pc
  enq_move : (new_node : Ptr) → Pc
  enq_unlock : (result : Bool) → Pc
  enq_done : (result : Bool) → Pc
  -- `deq`: before omp_set_lock, the reads of `Q->head` and `sentinel->next`, that of `next->data`,
  -- `Q->head = next`, the test of `Q->head->next`, omp_set_lock, the second test and the store to
  -- `Q->tail`, omp_unset_lock, recycle_node, and omp_unset_lock
  deq_start : (count : Option ℕ) → Pc
  deq_read : (count : Option ℕ) → Pc
  deq_load : (count : Option ℕ) (sentinel next : Ptr) → Pc
  deq_pop : (count : Option ℕ) (sentinel next : Ptr) (v : Value) → Pc
  deq_test : (count : Option ℕ) (sentinel : Ptr) (v : Value) → Pc
  deq_wait : (count : Option ℕ) (sentinel : Ptr) (v : Value) → Pc
  deq_retail : (count : Option ℕ) (sentinel : Ptr) (v : Value) → Pc
  deq_release : (count : Option ℕ) (sentinel : Ptr) (v : Value) → Pc
  deq_recycle : (count : Option ℕ) (sentinel : Ptr) (v : Value) → Pc
  deq_unlock : (count : Option ℕ) (result : Option Value) → Pc
  deq_done : (count : Option ℕ) (result : Option Value) → Pc

-- The memory with the fields of `queue_t` but its locks, these, and the threads.
pub record State : Type 0 where
  pub world : World
  pub enq_lock : OmpLock
  pub deq_lock : OmpLock
  pub threads : ℕ → Pc

-- The ends of `init_queue` and `destroy_queue`, with `omp_init_lock` and `omp_destroy_lock`.
abbrev pub with_locks : Exec (Unit {0}) → Outcome State
with_locks (ok _ w) =
    moved (record { world = w; enq_lock = unlocked; deq_lock = unlocked; threads = λ _. outside })
with_locks _ = broken

abbrev pub without_locks : (ℕ → Pc) → Exec (Unit {0}) → Outcome State
without_locks pcs (ok _ w) =
    moved (record { world = w; enq_lock = raw; deq_lock = raw; threads = pcs })
without_locks pcs _ = broken

-- `init_queue`, by the one thread that there is then
pub init_queue : Alloc → (got_array : Bool) → (num_threads : ℕ) → World → Outcome State
init_queue m got_array num_threads w = with_locks (Sequential.init_queue m got_array num_threads w)

-- `destroy_queue`, on fuel for its loops
pub destroy_queue : (fuel : ℕ) → State → Outcome State
destroy_queue fuel s = without_locks s.threads (Sequential.destroy_queue fuel s.world)

-- A step of thread `t` on the memory.
abbrev after : ℕ → State → Exec Pc → Outcome State
after t s (ok pc w) = moved (record s { world = w; threads = update s.threads t pc })
after t s fault = broken
after t s starved = broken

-- The steps on the memory, with the place that follows; none elsewhere.
pub access : Alloc → (t : ℕ) → Pc → Option (Cmd Pc)
unfolding upcycle_node recycle_node
access m t (enq_alloc v) =
    some (do n ← upcycle_node m t; give (if n == null then enq_unlock false else enq_fill v n))
access m t (enq_fill v n) = some (do set_value n v; set_next n null; give (enq_link v n))
access m t (enq_link v n) = some (do q ← queue; set_next q.tail n; give (enq_move n))
access m t (enq_move n) = some (do set_tail n; give (enq_unlock true))
access m t (deq_read c) = some (do
  q ← queue
  sentinel ← load q.head
  give (if sentinel.next == null then deq_unlock c none else deq_load c q.head sentinel.next))
access m t (deq_load c s next) = some (do n ← load next; give (deq_pop c s next n.value))
access m t (deq_pop c s next v) = some (do set_head next; give (deq_test c s v))
access m t (deq_test c s v) = some (do
  q ← queue
  n ← load q.head
  give (if n.next == null then deq_wait c s v else deq_recycle c s v))
access m t (deq_retail c s v) = some (do
  q ← queue
  n ← load q.head
  if n.next == null then set_tail q.head else give tt
  give (deq_release c s v))
access m t (deq_recycle c s v) = some (do c' ← recycle_node t s c; give (deq_unlock c' (some v)))
access m t pc = none

-- The steps on the locks.
pub sync : (t : ℕ) → Pc → State → Outcome State
sync t (enq_start v) s =
    set_lock t s.enq_lock λ l. record s { enq_lock = l; threads = update s.threads t (enq_alloc v) }
sync t (enq_unlock r) s =
    unset_lock t s.enq_lock
      λ l. record s { enq_lock = l; threads = update s.threads t (enq_done r) }
sync t (deq_start c) s =
    set_lock t s.deq_lock λ l. record s { deq_lock = l; threads = update s.threads t (deq_read c) }
sync t (deq_wait c n v) s =
    set_lock t s.enq_lock
      λ l. record s { enq_lock = l; threads = update s.threads t (deq_retail c n v) }
sync t (deq_release c n v) s =
    unset_lock t s.enq_lock
      λ l. record s { enq_lock = l; threads = update s.threads t (deq_recycle c n v) }
sync t (deq_unlock c r) s =
    unset_lock t s.deq_lock
      λ l. record s { deq_lock = l; threads = update s.threads t (deq_done c r) }
sync t pc s = blocked

step_at : Alloc → ℕ → Pc → State → Outcome State
unfolding access sync
step_at m t pc s = elim (access m t pc) [ some c ↦ after t s (c s.world) | none ↦ sync t pc s ]

-- The next step of thread `t`; `m` is what `malloc` would hand back.
pub step : Alloc → ℕ → State → Outcome State
unfolding step_at
step m t s = step_at m t (s.threads t) s

-- Calls; a thread that is in no call may make one.
pub data Call : Type 0 where
  enqueue : (v : Value) → Call
  dequeue : (count : Option ℕ) → Call

pub entry : Call → Pc
entry (enqueue v) = enq_start v
entry (dequeue c) = deq_start c

abbrev pub busy : Pc → Bool
busy outside = false
busy (enq_done r) = false
busy (deq_done c r) = false
busy _ = true

pub call : ℕ → Call → State → State
unfolding entry
call t c s = record s { threads = update s.threads t (entry c) }

-- Where calls take effect: at the stores to `Q->tail->next` and `Q->head`, and at the read of a
-- `next` that is NULL.
pub event : (t : ℕ) (before after : Pc) → List Event
event t (enq_link v n) pc = put t v ∷ []
event t (deq_pop c s n v) pc = took t v ∷ []
event t (deq_read c) (deq_unlock c' r) = missed t ∷ []
event t _ _ = []
