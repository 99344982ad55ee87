-- ===== src/GlobalLock/System.antt =====
-- All interleavings of the threads of Ex2.c, from `init_queue` on, and what holds under each.
use amp_project.Base.{
  ℕ, ◌+◌, ◌≤◌, ◌<◌, ◌≡◌, ◌≢◌, refl, sym, ◌∙◌, ap, subst, true, false, Option, some, List, [], ◌++◌,
  arith, length,
}
use amp_project.Heap.{Ptr, null, Value, Alloc}
use amp_project.Heap.Seg.{◌∉◌, not-mem_of_owner}
use amp_project.Sequential.Memory.{World}
use amp_project.Sequential.Shape.{Pool, IsQueue, yielded}
use amp_project.Sequential.Others.{Held}
use amp_project.Sequential.Contents.{Holds, holds_of}
use amp_project.Sequential.Init.{init_queue-IsQueue}
use amp_project.Sequential.Destroy.{Destroyed, destroy_queue-Destroyed, nodes}
use amp_project.Sequential.Pools.{IsFresh}
use amp_project.Threads.{raw, unlocked, broken, moved, Guarded-keep, update-each, Event, replay}
use amp_project.GlobalLock.{
  Pc, outside, deq_recycle, enqueue, dequeue, State, init_queue, destroy_queue, with_lock,
  without_lock, step, Call, entry, busy, call, event,
}
use amp_project.GlobalLock.Invariant.{inside, Place, Inv, Stepped, step-Stepped}

idle_outside : (pc : Pc) → busy pc ≡ false → inside pc ≡ false
idle_outside outside e = refl
idle_outside _ e = ground arith

entry_outside : (c : Call) → inside (entry c) ≡ false
unfolding entry
entry_outside c = ground arith

entry-Place : (w : World) (own : _) (t : ℕ) (c : Call) → Place w own t (entry c)
unfolding entry
entry-Place w own t (enqueue v) = tt
entry-Place w own t (dequeue c) = tt

-- A thread that was in no call begins one.
call-Inv :
    {n : ℕ} {s : State} {xs : List Value}
    → Inv n s xs
    → (t : ℕ) (c : Call) → t < n
    → busy (s.threads t) ≡ false
    → Inv n (call t c s) xs
unfolding call
call-Inv {n} {s} inv t c lt idle = record {
  own = inv.own;
  front = inv.front;
  last = inv.last;
  pool = inv.pool;
  sentinel = inv.sentinel;
  shape = inv.shape;
  contents = inv.contents;
  size = inv.size;
  known =
      update-each (λ u p. busy p ≡ true → u < n) s.threads t (entry c) (λ _. lt)
        (λ u ne. inv.known u);
  places =
      update-each (λ u p. Place s.world inv.own u p) s.threads t (entry c)
        (entry-Place s.world inv.own t c) (λ u ne. inv.places u);
  guard =
      Guarded-keep inv.guard t (entry c) (entry_outside c ∙ sym (idle_outside (s.threads t) idle));
}

abbrev first_state : World → State
first_state w = record { world = w; lock = unlocked; threads = λ _. outside }

first-Inv :
    {n : ℕ} {w : World}
    → IsQueue w (λ _. []) []
    → w.queue.num_threads ≡ n
    → Inv n (first_state w) []
first-Inv is size = record {
  own = is.own;
  front = is.front;
  last = is.last;
  pool = λ _. [];
  sentinel = is.sentinel;
  shape = is.shape;
  contents = is.contents;
  size = size;
  known = λ t e. cc e;
  places = λ t. tt;
  guard = record { holder = λ t e. cc e; within = λ t e. cc e; usable = λ e. cc e };
}

-- The states that `n` threads reach, with the events on the way, the latest first.
pub data Reach (n : ℕ) : State → List Event → Type 0 where
  start :
      {s : State} (m : Alloc) (w : World)
      → m.addr ≢ null
      → init_queue m true n w ≡ moved s
      → Reach n s []
  invoke :
      {s : State} {log : List Event}
      → Reach n s log
      → (t : ℕ) (c : Call) → t < n
      → busy (s.threads t) ≡ false
      → Reach n (call t c s) log
  next :
      {s s' : State} {log : List Event}
      → Reach n s log
      → (t : ℕ) (m : Alloc) → IsFresh m s.world
      → step m t s ≡ moved s'
      → Reach n s' (event t (s.threads t) (s'.threads t) ++ log)

pub Reach-Inv :
    {n : ℕ} {s : State} {log : List Event}
    → Reach n s log
    → (xs : List Value) × (replay log ≡ some xs) × Inv n s xs
unfolding replay init_queue
Reach-Inv {n} (start {s = s} m w ne e) =
    let (r, w', run, (is, size, kept)) = yielded (init_queue-IsQueue m n w ne) in
    let started : moved (first_state w') ≡ moved s = sym (ap with_lock run) ∙ e in
    ([], refl, subst (λ z. Inv n z []) (cc started) (first-Inv is size))
Reach-Inv (invoke r t c lt idle) =
    let (xs, e, inv) = Reach-Inv r in (xs, e, call-Inv inv t c lt idle)
Reach-Inv {n} (next {s = s} {log = log} r t m fresh e) =
    let (xs, holds, inv) = Reach-Inv r in
    let (xs', f, inv') = subst (Stepped n s xs t) e (step-Stepped inv t m fresh) in
    (xs', f log holds, inv')

module _ {n : ℕ} {s : State} {log : List Event} (r : Reach n s log) where
  -- In every reachable state the queue in memory holds what a FIFO list holds after the events so
  -- far: each dequeue took the oldest value of then, and each miss met an empty list.
  pub fifo_order :
      (xs : List Value) × (replay log ≡ some xs) × Holds s.world.heap s.world.queue.head xs
  fifo_order = let (xs, e, inv) = Reach-Inv r in (xs, e, holds_of inv.shape inv.contents)

  -- No reachable step has undefined behaviour: no access of NULL, of freed memory or out of range, and
  -- no misuse of the lock.
  pub no_fault : (t : ℕ) (m : Alloc) → IsFresh m s.world → step m t s ≢ broken
  no_fault t m fresh e =
      let (xs, log_is, inv) = Reach-Inv r in subst (Stepped n s xs t) e (step-Stepped inv t m fresh)

  -- A node that a thread gives back without the lock is in no other hands: it is not in the queue, and
  -- no other thread gives it back.
  pub recycled_apart :
      (t : ℕ) {c : Option ℕ} {v : Value} {p : Ptr}
      → s.threads t ≡ deq_recycle c v p
      → ((xs : List Value) × (h : Holds s.world.heap s.world.queue.head xs) × (replay log ≡ some xs)
          × (p ∉ h.cells))
        × ((u : ℕ) (c' : Option ℕ) (v' : Value) (q : Ptr)
            → u ≢ t
            → s.threads u ≡ deq_recycle c' v' q
            → q ≢ p)
  unfolding holds_of
  recycled_apart t {c} {v} {p} here =
      let (xs, log_is, inv) = Reach-Inv r in
      let held : Held s.world inv.own t p = rw here at (inv.places t) in
      let h = holds_of inv.shape inv.contents in
      (
        (xs, h, log_is, not-mem_of_owner p h.chain (λ e. cc (e, held.mine))),
        λ u c' v' q ne there e.
            let held' : Held s.world inv.own u q = rw there at (inv.places u) in
            ne (cc (held.mine, held'.mine, ap inv.own e)),
      )

-- When no thread is in a call, `destroy_queue` with fuel for the longest list returns: it frees the
-- nodes of the queue and of all free lists, each once, touches no other, and destroys the lock.
pub destroy_queue-idle :
    {n : ℕ} {s : State} {log : List Event}
    → Reach n s log
    → ((t : ℕ) → busy (s.threads t) ≡ false)
    → (xs : List Value) × (pool : Pool) × (is : IsQueue s.world pool xs) × (replay log ≡ some xs)
      × ((fuel : ℕ)
          → length xs + 2 ≤ fuel
          → ((t : ℕ) → length (pool t) < fuel)
          → (s' : State) × (destroy_queue fuel s ≡ moved s')
            × Destroyed s.world (nodes is) pool s'.world
            × (s'.lock ≡ raw))
unfolding destroy_queue
destroy_queue-idle {s} r idle =
    let (xs, log_is, inv) = Reach-Inv r in
    let is : IsQueue s.world inv.pool xs = record {
      own = inv.own;
      front = inv.front;
      last = inv.last;
      sentinel = inv.sentinel;
      shape = inv.shape;
      contents = inv.contents;
    } in
    (
      xs,
      inv.pool,
      is,
      log_is,
      λ fuel le enough.
          let (u, w', run, gone) = yielded (destroy_queue-Destroyed is fuel le enough) in
          (
            record { world = w'; lock = raw; threads = s.threads },
            ap (without_lock s.threads) run,
            gone,
            refl,
          ),
    )
