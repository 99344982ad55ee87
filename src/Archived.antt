-- ===== src/Archived.antt =====
-- archive/Ex4_old.c and Ex4_old.h: the queue with two locks and a Peterson lock between its ends, as
-- far as one call runs at a time. Peterson has the lock itself with both sides at work.
pub mod Alone
mod Examples
use amp_project.Base.{
  ℕ, zero, suc, Bool, true, false, Option, none, List, [], ◌∷◌, ◌==◌, ◌&&◌, if◌then◌else◌,
}
use amp_project.Heap.{Value, Alloc}
use amp_project.Threads.{
  OmpLock, raw, unlocked, Outcome, broken, blocked, moved, set_lock, unset_lock,
}
use amp_project.Peterson.{Side, enqueuer, dequeuer}
use amp_project.Sequential
use amp_project.Sequential.Memory.{World, Exec, fault, starved, ok, Cmd, load}
use amp_project.Sequential.History.{Call, enqueue, dequeue, enqueued, dequeued}

-- `peterson_lock_t`; `flag[0]` is that of the enqueuer.
pub record PetersonLock : Type 0 where
  pub flag_enq : Bool
  pub flag_deq : Bool
  pub victim : Side

-- The memory with the other fields of `queue_t`, and the locks.
pub record State : Type 0 where
  pub world : World
  pub enq_lock : OmpLock
  pub deq_lock : OmpLock
  pub plock : PetersonLock

-- Undefined behaviour, waiting for ever (with no other call, nothing lets go of a lock; or the fuel
-- of a loop is used up), or a result.
pub data Run (A : Type 0) : Type 0 where
  crash waits : Run A
  done : A → State → Run A

abbrev pub Act : Type 0 → Type 0
Act A = State → Run A

abbrev pub give : {A : Type 0} → A → Act A
give a s = done a s

abbrev follow : {A B : Type 0} → (A → Act B) → Run A → Run B
follow k crash = crash
follow k waits = waits
follow k (done a s) = k a s

infixl 5 ◌>>=◌ ◌>>◌
abbrev pub ◌>>=◌ : {A B : Type 0} → Act A → (A → Act B) → Act B
◌>>=◌ m k s = follow k (m s)

abbrev pub ◌>>◌ : {A B : Type 0} → Act A → Act B → Act B
◌>>◌ m n s = follow (λ _. n) (m s)

-- A command on the memory
abbrev finish : {A : Type 0} → State → Exec A → Run A
finish s fault = crash
finish s starved = waits
finish s (ok a w) = done a (record s { world = w })

abbrev pub on_memory : {A : Type 0} → Cmd A → Act A
on_memory c s = finish s (c s.world)

abbrev locked : Outcome State → Run (Unit {0})
locked broken = crash
locked blocked = waits
locked (moved s) = done tt s

-- `omp_set_lock` and `omp_unset_lock` on the lock of a side
abbrev set_side : Side → (tid : ℕ) → Act (Unit {0})
set_side enqueuer t s = locked (set_lock t s.enq_lock λ l. record s { enq_lock = l })
set_side dequeuer t s = locked (set_lock t s.deq_lock λ l. record s { deq_lock = l })

abbrev unset_side : Side → (tid : ℕ) → Act (Unit {0})
unset_side enqueuer t s = locked (unset_lock t s.enq_lock λ l. record s { enq_lock = l })
unset_side dequeuer t s = locked (unset_lock t s.deq_lock λ l. record s { deq_lock = l })

abbrev set_flag : Side → Bool → PetersonLock → PetersonLock
set_flag enqueuer b p = record p { flag_enq = b }
set_flag dequeuer b p = record p { flag_deq = b }

-- `plock->flag[other_id] && plock->victim == flag_id`
abbrev must_wait : Side → PetersonLock → Bool
must_wait enqueuer p = p.flag_deq && elim p.victim [ enqueuer ↦ true | dequeuer ↦ false ]
must_wait dequeuer p = p.flag_enq && elim p.victim [ enqueuer ↦ false | dequeuer ↦ true ]

-- The busy wait, on fuel
pub busy_wait : (fuel : ℕ) → Side → Act (Unit {0})
busy_wait zero side s = waits
busy_wait (suc k) side s =
    let rest = busy_wait k side s in if must_wait side s.plock then rest else done tt s

pub lock_peterson : (fuel : ℕ) → Side → Act (Unit {0})
unfolding busy_wait
lock_peterson fuel side s =
    let raised = set_flag side true s.plock in
    busy_wait fuel side (record s { plock = record raised { victim = side } })

pub unlock_peterson : Side → Act (Unit {0})
unlock_peterson side s = done tt (record s { plock = set_flag side false s.plock })

-- `init_queue` has the text of Ex1.c, then initialises the locks; `destroy_queue` likewise destroys
-- the two of OpenMP.
pub init_queue : Alloc → (got_array : Bool) → (num_threads : ℕ) → Act (Unit {0})
init_queue m got_array num_threads = do
  on_memory (Sequential.init_queue m got_array num_threads)
  λ s. done tt (record s {
    plock = record { flag_enq = false; flag_deq = false; victim = enqueuer };
    enq_lock = unlocked;
    deq_lock = unlocked;
  })

pub destroy_queue : (fuel : ℕ) → Act (Unit {0})
destroy_queue fuel = do
  on_memory (Sequential.destroy_queue fuel)
  λ s. done tt (record s { enq_lock = raw; deq_lock = raw })

-- What `enq` and `deq` both do around the text that they share with Ex1.c: they set the lock of their
-- side, take the Peterson lock if the sentinel's successor is the tail, and let go of both on every
-- path.
pub guarded : {A : Type 0} → (fuel : ℕ) → Side → (tid : ℕ) → Cmd A → Act A
unfolding lock_peterson unlock_peterson
guarded fuel side tid body = do
  set_side side tid
  q ← λ s. done s.world.queue s
  sentinel ← on_memory (load q.head)
  aba_wait ← give (sentinel.next == q.tail)
  if aba_wait then lock_peterson fuel side else give tt
  result ← on_memory body
  if aba_wait then unlock_peterson side else give tt
  unset_side side tid
  give result

pub enq : (fuel : ℕ) → Alloc → Value → (tid : ℕ) → Act Bool
unfolding guarded
enq fuel m v tid = guarded fuel enqueuer tid (Sequential.enq m v tid)

pub deq : (fuel : ℕ) → (tid : ℕ) → (count : Option ℕ) → Act (Option Value × Option ℕ)
unfolding guarded
deq fuel tid count = guarded fuel dequeuer tid (Sequential.deq tid count)

-- One call, and calls one after the other.
pub perform : (fuel : ℕ) → Call → Act amp_project.Sequential.History.Outcome
unfolding enq deq
perform fuel (enqueue m v t) = do r ← enq fuel m v t; give (enqueued r)
perform fuel (dequeue t) = do out ← deq fuel t none; give (dequeued out.0)

pub perform_all : (fuel : ℕ) → List Call → Act (List amp_project.Sequential.History.Outcome)
unfolding perform
perform_all fuel [] = give []
perform_all fuel (c ∷ cs) = do r ← perform fuel c; rs ← perform_all fuel cs; give (r ∷ rs)
