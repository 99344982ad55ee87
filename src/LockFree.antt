-- ===== src/LockFree.antt =====
-- project_skeleton/src/Ex5.c: the lock-free queue, whose nodes are given back when every thread has
-- left the operation in which it could have seen them. A step of a thread is one atomic access of
-- shared memory, with what the thread does on its own memory beside it.
pub mod Memory
pub mod Places
pub mod Indices
pub mod Nodes
pub mod Counters
pub mod Sizes
pub mod Ranges
pub mod Grace
pub mod Invariant
pub mod Stable
pub mod Change
pub mod NewNode
pub mod Enqueue
pub mod Link
pub mod Dequeue
pub mod Pop
pub mod Managing
pub mod Reclaim
pub mod System
pub mod Safety
pub mod Destroy
pub mod Release
mod Schedule
mod Examples
use amp_project.Base.{
  ℕ, ◌+◌, ◌%◌, ◌^◌, Bool, true, false, not, ◌||◌, ◌&&◌, Option, none, some, List, [], ◌∷◌, ◌==◌,
  if◌then◌else◌, bump, ltb,
}
use amp_project.Heap.{Ptr, null, Value, Alloc}
use amp_project.Sequential
use amp_project.Sequential.Memory.{
  World, Exec, fault, starved, ok, Cmd, give, ◌>>=◌, ◌>>◌, load, set_value, set_next, queue,
  set_head, set_tail, free_list, load_free_list, store_free_list,
}
use amp_project.Threads.{Outcome, broken, blocked, moved, update, Event, put, took, missed}
use Memory.{destroy_lists, upcycle_node, recycle_node, reclaim, cas_head, cas_tail, cas_next}

-- `*failed_CAS_count` and `*free_list_insertion_count`
pub record Counts : Type 0 where
  pub failed : Option ℕ
  pub inserted : Option ℕ

abbrev pub fail : Counts → Counts
fail k = record k { failed = bump k.failed }

pub data Result : Type 0 where
  enqueued : Bool → Result
  dequeued : Option Value → Result

-- Where a thread stands, with its local variables.
pub data Pc : Type 0 where
  outside : Pc
  -- `enq`: mm_op_begin, the new node, the reads of `Q->tail` and `last->next`, the second read of
  -- `Q->tail`, and the three exchanges
  enq_begin : (k : Counts) (v : Value) → Pc
  enq_alloc : (k : Counts) (v : Value) → Pc
  enq_tail : (k : Counts) (v : Value) (n : Ptr) → Pc
  enq_next : (k : Counts) (v : Value) (n last : Ptr) → Pc
  enq_check : (k : Counts) (v : Value) (n last next : Ptr) → Pc
  enq_link : (k : Counts) (v : Value) (n last : Ptr) → Pc
  enq_swing : (k : Counts) (n last : Ptr) → Pc
  enq_help : (k : Counts) (v : Value) (n last next : Ptr) → Pc
  -- `deq`: mm_op_begin, the reads of `Q->head`, `Q->tail` and `first->next`, the second read of
  -- `Q->head`, the exchange on `Q->tail`, `next->data`, the exchange on `Q->head`, and mm_retire
  deq_begin : (k : Counts) → Pc
  deq_head : (k : Counts) → Pc
  deq_tail : (k : Counts) (first : Ptr) → Pc
  deq_next : (k : Counts) (first last : Ptr) → Pc
  deq_check : (k : Counts) (first last next : Ptr) → Pc
  deq_help : (k : Counts) (last next : Ptr) → Pc
  deq_load : (k : Counts) (first next : Ptr) → Pc
  deq_swing : (k : Counts) (first next : Ptr) (v : Value) → Pc
  deq_retire : (k : Counts) (first : Ptr) (v : Value) → Pc
  -- `mm_op_end`: the counter, the loop of mm_wait_until_unreserved and its inner one, and
  -- mm_reclaim_all
  end_count : (k : Counts) (r : Result) → Pc
  end_scan : (k : Counts) (r : Result) (i : ℕ) → Pc
  end_spin : (k : Counts) (r : Result) (i : ℕ) (v : ℕ) → Pc
  end_reclaim : (k : Counts) (r : Result) → Pc
  done : (k : Counts) (r : Result) → Pc

-- The fields of `queue_t` that Ex1.c has too, the counters, the lists of retired nodes with their
-- lengths, and the threads. Entries at or above `num_threads` stand for nothing: see `at_entry`.
pub record State : Type 0 where
  pub world : World
  pub ctr : ℕ → ℕ
  pub retired : ℕ → List Ptr
  pub retired_count : ℕ → ℕ
  pub threads : ℕ → Pc

-- What the surroundings decide in a step: the result of `malloc`, and whether a weak exchange fails
-- for no reason.
pub record Env : Type 0 where
  pub block : Alloc
  pub spurious : Bool

abbrev pub is_odd : ℕ → Bool
is_odd x = x % 2 == 1

-- `atomic_fetch_add(&Q->ctr[tid], 1)`, on 64 bits
abbrev pub count_up : ℕ → (ℕ → ℕ) → ℕ → ℕ
count_up t ctr = update ctr t ((ctr t + 1) % 2 ^ 64)

abbrev pub after : ℕ → State → Exec Pc → Outcome State
after t s (ok pc w) = moved (record s { world = w; threads = update s.threads t pc })
after t s fault = broken
after t s starved = broken

abbrev pub goto : ℕ → Pc → State → Outcome State
goto t pc s = moved (record s { threads = update s.threads t pc })

-- An access of entry `i` of `Q->ctr`, `Q->retired` or `Q->retired_count`. `init_queue` gives the
-- arrays `num_threads` entries, and no step changes that field; behind them is undefined behaviour.
abbrev pub at_entry : (i : ℕ) → State → Outcome State → Outcome State
at_entry i s o = if ltb i s.world.queue.num_threads then o else broken

-- The steps on `head`, `tail` and the nodes.
pub access : Env → (t : ℕ) → Pc → Option (Cmd Pc)
unfolding upcycle_node cas_head cas_tail cas_next
access e t (enq_alloc k v) =
    some (do n ← upcycle_node e.block t; set_value n v; set_next n null; give (enq_tail k v n))
access e t (enq_tail k v n) = some (do q ← queue; give (enq_next k v n q.tail))
access e t (enq_next k v n last) = some (do l ← load last; give (enq_check k v n last l.next))
access e t (enq_check k v n last next) = some (do
  q ← queue
  give (
      if last == q.tail
      then (if next == null then enq_link k v n last else enq_help k v n last next)
      else enq_tail k v n))
access e t (enq_link k v n last) = some (do
  swapped ← cas_next e.spurious last null n
  give (if swapped then enq_swing k n last else enq_tail (fail k) v n))
access e t (enq_swing k n last) = some (do
  swapped ← cas_tail e.spurious last n
  give (end_count (if swapped then k else fail k) (enqueued true)))
access e t (enq_help k v n last next) = some (do
  swapped ← cas_tail e.spurious last next
  give (enq_tail (if swapped then k else fail k) v n))
access e t (deq_head k) = some (do q ← queue; give (deq_tail k q.head))
access e t (deq_tail k first) = some (do q ← queue; give (deq_next k first q.tail))
access e t (deq_next k first last) = some (do f ← load first; give (deq_check k first last f.next))
access e t (deq_check k first last next) = some (do
  q ← queue
  give (
      if first == q.head
      then (if first == last
          then (if next == null then end_count k (dequeued none) else deq_help k last next)
          else deq_load k first next)
      else deq_head k))
access e t (deq_help k last next) =
    some
      (do swapped ← cas_tail e.spurious last next; give (deq_head (if swapped then k else fail k)))
access e t (deq_load k first next) = some (do n ← load next; give (deq_swing k first next n.value))
access e t (deq_swing k first next v) = some (do
  swapped ← cas_head e.spurious first next
  give (if swapped then deq_retire k first v else deq_head (fail k)))
access e t pc = none

-- `mm_op_end` behind the counter: nothing to reclaim, or the wait.
abbrev pub end_test : (count : ℕ) → Counts → Result → Pc
end_test count k r = if count == 0 then done k r else end_scan k r 0

-- The rest of the round of mm_wait_until_unreserved at `i`, with the counter that it read.
abbrev pub scan_entry : (v : ℕ) → Counts → Result → ℕ → Pc
scan_entry v k r i = if is_odd v then end_spin k r i v else end_scan k r (i + 1)

-- The round at `i`; its own counter the thread does not read.
unfoldable pub scan : (tid : ℕ) → Counts → Result → ℕ → State → Outcome State
scan t k r i s =
    if i == s.world.queue.num_threads
    then goto t (end_reclaim k r) s
    else if i == t
    then goto t (end_scan k r (i + 1)) s
    else at_entry i s (goto t (scan_entry (s.ctr i) k r i) s)

-- The steps of the memory management.
pub manage : Env → (t : ℕ) → Pc → State → Outcome State
unfolding reclaim scan
manage e t (enq_begin k v) s =
    at_entry t s
      (moved (record s { ctr = count_up t s.ctr; threads = update s.threads t (enq_alloc k v) }))
manage e t (deq_begin k) s =
    at_entry t s
      (moved (record s { ctr = count_up t s.ctr; threads = update s.threads t (deq_head k) }))
manage e t (deq_retire k first v) s =
    if e.block.addr == null
    then broken
    else at_entry t s (
        moved (record s {
          retired = update s.retired t (first ∷ s.retired t);
          retired_count = update s.retired_count t (s.retired_count t + 1);
          threads = update s.threads t (end_count k (dequeued (some v)));
        }))
manage e t (end_count k r) s = at_entry t s (
    moved (record s {
      ctr = count_up t s.ctr;
      threads = update s.threads t (end_test (s.retired_count t) k r);
    }))
manage e t (end_scan k r i) s = scan t k r i s
manage e t (end_spin k r i v) s =
    at_entry i s (goto t (if s.ctr i == v then end_spin k r i v else end_scan k r (i + 1)) s)
manage e t (end_reclaim k r) s = at_entry t s (
    after t
      (record s { retired = update s.retired t []; retired_count = update s.retired_count t 0 })
      ((reclaim t (s.retired t) k.inserted >>= λ c. give (done (record k { inserted = c }) r))
        s.world))
manage e t pc s = blocked

abbrev pub either : ℕ → State → Option (Cmd Pc) → Outcome State → Outcome State
either t s (some c) managed = after t s (c s.world)
either t s none managed = managed

pub step_at : Env → ℕ → Pc → State → Outcome State
unfolding access manage
step_at e t pc s = either t s (access e t pc) (manage e t pc s)

-- The next step of thread `t`.
pub step : Env → ℕ → State → Outcome State
unfolding step_at
step e t s = step_at e t (s.threads t) s

abbrev pub with_counters : Exec (Unit {0}) → Outcome State
with_counters (ok _ w) = moved (record {
  world = w;
  ctr = λ _. 0;
  retired = λ _. [];
  retired_count = λ _. 0;
  threads = λ _. outside;
})
with_counters _ = broken

-- `init_queue`, with memory for the three arrays; the rest is as in Ex1.c.
pub init_queue : Alloc → (got_array : Bool) → (num_threads : ℕ) → World → Outcome State
init_queue m got_array num_threads w =
    with_counters (Sequential.init_queue m got_array num_threads w)

abbrev pub without_counters : (ℕ → Pc) → Exec (Unit {0}) → Outcome State
without_counters pcs (ok _ w) =
    moved
      (record { world = w; ctr = λ _. 0; retired = λ _. []; retired_count = λ _. 0; threads = pcs })
without_counters pcs _ = broken

-- `destroy_queue`, on fuel for its loops over nodes
pub destroy_queue : (fuel : ℕ) → State → Outcome State
unfolding destroy_lists
destroy_queue fuel s = without_counters s.threads (destroy_lists fuel s.retired s.world)

-- Calls; a thread that is in no call may make one.
pub data Call : Type 0 where
  enqueue : (k : Counts) (v : Value) → Call
  dequeue : (k : Counts) → Call

pub entry : Call → Pc
entry (enqueue k v) = enq_begin k v
entry (dequeue k) = deq_begin k

abbrev pub busy : Pc → Bool
busy outside = false
busy (done k r) = false
busy _ = true

pub call : ℕ → Call → State → State
unfolding entry
call t c s = record s { threads = update s.threads t (entry c) }

-- Where calls take effect: at the exchanges on `last->next` and `Q->head`, and at the read of a
-- `first->next` that is NULL.
unfoldable pub event : (t : ℕ) (before after : Pc) → List Event
event t (enq_link k v n last) (enq_swing k' n' last') = put t v ∷ []
event t (deq_swing k first next v) (deq_retire k' first' v') = took t v ∷ []
event t (deq_next k first last) (deq_check k' first' last' next) =
    if next == null then missed t ∷ [] else []
event t _ _ = []
