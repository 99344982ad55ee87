-- ===== src/TwoLock/Safety.antt =====
-- What holds for Ex4.c under every interleaving: order, safety of memory, the two locks, and the end.
use amp_project.Base.{
  ℕ, ◌+◌, ◌≤◌, ◌<◌, ◌≡◌, ◌≢◌, refl, sym, ◌∙◌, ap, subst, true, false, Option, some, List, length,
}
use amp_project.Heap.{Ptr, Value, Alloc}
use amp_project.Heap.Seg.{values, values-concat}
use amp_project.Sequential.Shape.{Shape, IsQueue, load-ok, Pool, yielded}
use amp_project.Sequential.Pools.{IsFresh}
use amp_project.Sequential.Destroy.{Destroyed, destroy_queue-Destroyed, nodes}
use amp_project.Sequential.Others.{Held}
use amp_project.Sequential.Contents.{Holds, holds_of, settled}
use amp_project.Threads.{
  OmpLock, raw, unlocked, locked_by, broken, moved, Guarded, Guarded-one, update, Event, replay,
}
use amp_project.TwoLock.{
  deq_retail, deq_release, State, access, step_at, step, busy, destroy_queue, without_locks,
}
use amp_project.TwoLock.Invariant.{in_enq, in_deq, Inv}
use amp_project.TwoLock.Dequeue.{head_of, retail_same}
use amp_project.TwoLock.Locking.{Stepped}
use amp_project.TwoLock.System.{step-Stepped, Reach, Reach-Inv, idle_outside}

Inv-Holds :
    {n : ℕ} {s : State} {xs : List Value} → Inv n s xs → Holds s.world.heap s.world.queue.head xs
Inv-Holds inv = holds_of inv.layout.shape (
    sym (values-concat inv.layout.front inv.end inv.layout.last)
    ∙ ap values inv.layout.all
    ∙ inv.contents)

-- In every reachable state the queue in memory holds what a FIFO list holds after the events so far:
-- each took the value that was the oldest then, and each miss met an empty list.
pub linearizable :
    {n : ℕ} {s : State} {log : List Event}
    → Reach n s log
    → (xs : List Value) × (replay log ≡ some xs) × Holds s.world.heap s.world.queue.head xs
linearizable r = let (xs, e, inv) = Reach-Inv r in (xs, e, Inv-Holds inv)

-- No reachable step has undefined behaviour: no access of NULL, of freed memory or out of range, and
-- no misuse of a lock.
pub never_broken :
    {n : ℕ} {s : State} {log : List Event}
    → Reach n s log
    → (t : ℕ) (m : Alloc) → IsFresh m s.world
    → step m t s ≢ broken
never_broken {n} {s} r t m fresh e =
    let (xs, log_is, inv) = Reach-Inv r in subst (Stepped n s xs t) e (step-Stepped inv t m fresh)

-- At each end of the queue there is one thread at most between setting and unsetting its lock.
pub one_at_each_end :
    {n : ℕ} {s : State} {log : List Event}
    → Reach n s log
    → (t u : ℕ)
    → (in_enq (s.threads t) ≡ true → in_enq (s.threads u) ≡ true → u ≡ t)
      × (in_deq (s.threads t) ≡ true → in_deq (s.threads u) ≡ true → u ≡ t)
one_at_each_end r t u =
    let (xs, log_is, inv) = Reach-Inv r in
    (Guarded-one inv.enq_guard t u, Guarded-one inv.deq_guard t u)

-- Where `deq` takes `enq_lock` to move the tail, the store never changes anything: memory and
-- `queue_t` are the same before and after.
pub tail_store_void :
    {n : ℕ} {s : State} {log : List Event}
    → Reach n s log
    → (t : ℕ) (m : Alloc) {c : Option ℕ} {p : Ptr} {v : Value} → s.threads t ≡ deq_retail c p v
    → (s' : State) × (step m t s ≡ moved s') × (s'.world ≡ s.world)
unfolding step step_at access
tail_store_void {s} r t m {c} {p} {v} here =
    let (xs, log_is, inv) = Reach-Inv r in
    let (tail, held) : (s.world.queue.tail ≡ inv.end) × Held s.world inv.own t p =
      rw here at (inv.places t) in
    let h = head_of inv.layout in
    (
      record s { threads = update s.threads t (deq_release c p v) },
      rw (here, load-ok s.world h.ne_null h.holds, retail_same inv tail h.holds) refl,
      refl,
    )

-- Between calls the memory stands for a queue of Ex1.c.
quiet-IsQueue :
    {n : ℕ} {s : State} {xs : List Value} (inv : Inv n s xs)
    → ((t : ℕ) → busy (s.threads t) ≡ false)
    → IsQueue s.world inv.pool xs
quiet-IsQueue {s} inv quiet = record {
  own = inv.own;
  front = inv.layout.front;
  last = inv.layout.last;
  sentinel = inv.sentinel;
  shape =
      subst (λ e. Shape (settled s.world e) inv.own inv.layout.front inv.layout.last inv.pool)
        (sym (inv.at_end (free s.enq_lock inv.enq_guard))) inv.layout.shape;
  contents =
      sym (values-concat inv.layout.front inv.end inv.layout.last)
      ∙ ap values inv.layout.all
      ∙ inv.contents;
}
  where
    free : (l : OmpLock) → Guarded in_enq l s.threads → l ≡ unlocked
    free raw g = absurd (g.usable refl)
    free unlocked g = refl
    free (locked_by t) g = cc (g.within t refl, (idle_outside (s.threads t) (quiet t)).0)

-- When no thread is in a call, `destroy_queue` with fuel for the longest list returns: it frees the
-- nodes of the queue and of all free lists, each once, touches no other, and destroys both locks.
pub destroy_queue-quiet :
    {n : ℕ} {s : State} {log : List Event}
    → Reach n s log
    → ((t : ℕ) → busy (s.threads t) ≡ false)
    → (xs : List Value) × (pool : Pool) × (is : IsQueue s.world pool xs) × (replay log ≡ some xs)
      × ((fuel : ℕ)
          → length xs + 2 ≤ fuel
          → ((t : ℕ) → length (pool t) < fuel)
          → (s' : State) × (destroy_queue fuel s ≡ moved s')
            × Destroyed s.world (nodes is) pool s'.world
            × (s'.enq_lock ≡ raw)
            × (s'.deq_lock ≡ raw))
unfolding destroy_queue
destroy_queue-quiet {s} r quiet =
    let (xs, log_is, inv) = Reach-Inv r in
    let is = quiet-IsQueue inv quiet in
    (
      xs,
      inv.pool,
      is,
      log_is,
      λ fuel le enough.
          let (u, w', run, gone) = yielded (destroy_queue-Destroyed is fuel le enough) in
          (
            record { world = w'; enq_lock = raw; deq_lock = raw; threads = s.threads },
            ap (without_locks s.threads) run,
            gone,
            refl,
            refl,
          ),
    )
