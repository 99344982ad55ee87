-- ===== src/TwoLock/System.antt =====
-- All interleavings of the threads of Ex4.c, from `init_queue` on.
use amp_project.Base.{
  ℕ, ◌<◌, ◌≡◌, ◌≢◌, refl, sym, ◌∙◌, ap, true, false, some, List, [], ◌∷◌, ◌++◌, arith, subst,
}
use amp_project.Heap.{null, Value, Alloc, Owners}
use amp_project.Heap.Seg.{Cells, values-concat}
use amp_project.Sequential.Memory.{World}
use amp_project.Sequential.Shape.{IsQueue, yielded}
use amp_project.Sequential.Init.{init_queue-IsQueue}
use amp_project.Sequential.Pools.{IsFresh}
use amp_project.Threads.{update-each, unlocked, moved, Guarded-keep, update, Event, replay}
use amp_project.TwoLock.{
  Pc, outside, enq_alloc, enq_fill, enq_link, enq_move, deq_read, deq_load, deq_pop, deq_test,
  deq_retail, deq_recycle, State, init_queue, with_locks, access, step_at, step, Call, enqueue,
  dequeue, entry, busy, call, event,
}
use amp_project.TwoLock.Invariant.{in_enq, in_deq, Place, Inv}
use amp_project.TwoLock.Enqueue.{
  enq_alloc-Advanced, enq_fill-Advanced, enq_link-Advanced, enq_move-Advanced,
}
use amp_project.TwoLock.Dequeue.{
  deq_read-Advanced, deq_load-Advanced, deq_pop-Advanced, deq_test-Advanced, deq_retail-Advanced,
  deq_recycle-Advanced,
}
use amp_project.TwoLock.Locking.{Stepped, after-Stepped, sync-Stepped}

module _ {n : ℕ} {s : State} {xs : List Value} (inv : Inv n s xs) (t : ℕ) (m : Alloc)
    (fresh : IsFresh m s.world) where
  step_at-Stepped : (pc : Pc) → s.threads t ≡ pc → Stepped n s xs t (step_at m t pc s)
  unfolding step_at access
  step_at-Stepped (enq_alloc v) here =
      after-Stepped n s xs t here (enq_alloc-Advanced inv t v here m fresh)
  step_at-Stepped (enq_fill v p) here =
      after-Stepped n s xs t here (enq_fill-Advanced inv t v p m here)
  step_at-Stepped (enq_link v p) here =
      after-Stepped n s xs t here (enq_link-Advanced inv t v p m here)
  step_at-Stepped (enq_move p) here = after-Stepped n s xs t here (enq_move-Advanced inv t p m here)
  step_at-Stepped (deq_read c) here = after-Stepped n s xs t here (deq_read-Advanced inv t m c here)
  step_at-Stepped (deq_load c p q) here =
      after-Stepped n s xs t here (deq_load-Advanced inv t m c p q here)
  step_at-Stepped (deq_pop c p q v) here =
      after-Stepped n s xs t here (deq_pop-Advanced inv t m c p q v here)
  step_at-Stepped (deq_test c p v) here =
      after-Stepped n s xs t here (deq_test-Advanced inv t m c p v here)
  step_at-Stepped (deq_retail c p v) here =
      after-Stepped n s xs t here (deq_retail-Advanced inv t m c p v here)
  step_at-Stepped (deq_recycle c p v) here =
      after-Stepped n s xs t here (deq_recycle-Advanced inv t m c p v here)
  step_at-Stepped pc here = sync-Stepped inv t pc here

  pub step-Stepped : Stepped n s xs t (step m t s)
  unfolding step
  step-Stepped = step_at-Stepped (s.threads t) refl

pub idle_outside : (pc : Pc) → busy pc ≡ false → (in_enq pc ≡ false) × (in_deq pc ≡ false)
idle_outside outside e = (refl, refl)
idle_outside _ e = ground arith

entry_outside : (c : Call) → (in_enq (entry c) ≡ false) × (in_deq (entry c) ≡ false)
unfolding entry
entry_outside c = ground arith

entry-Place :
    (w : World) (own : Owners) (cells : Cells) (end t : ℕ) (c : Call)
    → Place w own cells end t (entry c)
unfolding entry
entry-Place w own cells end t (enqueue v) = tt
entry-Place w own cells end t (dequeue c) = tt

-- A thread that was in no call begins one.
call-Inv :
    {n : ℕ} {s : State} {xs : List Value}
    → Inv n s xs
    → (t : ℕ) (c : Call) → t < n
    → busy (s.threads t) ≡ false
    → Inv n (call t c s) xs
unfolding call
call-Inv {n} {s} inv t c lt idle = record {
  own = inv.own;
  cells = inv.cells;
  end = inv.end;
  pool = inv.pool;
  sentinel = inv.sentinel;
  layout = inv.layout;
  contents = inv.contents;
  size = inv.size;
  known = known;
  places = places;
  enq_guard =
      Guarded-keep inv.enq_guard t (entry c)
        ((entry_outside c).0 ∙ sym (idle_outside (s.threads t) idle).0);
  deq_guard =
      Guarded-keep inv.deq_guard t (entry c)
        ((entry_outside c).1 ∙ sym (idle_outside (s.threads t) idle).1);
  at_end = inv.at_end;
}
  where
    known : (u : ℕ) → busy (update s.threads t (entry c) u) ≡ true → u < n
    known =
        update-each (λ u p. busy p ≡ true → u < n) s.threads t (entry c) (λ _. lt)
          (λ u ne. inv.known u)

    places : (u : ℕ) → Place s.world inv.own inv.cells inv.end u (update s.threads t (entry c) u)
    places =
        update-each (λ u p. Place s.world inv.own inv.cells inv.end u p) s.threads t (entry c)
          (entry-Place s.world inv.own inv.cells inv.end t c) (λ u ne. inv.places u)

abbrev first_state : World → State
first_state w = record {
  world = w;
  enq_lock = unlocked;
  deq_lock = unlocked;
  threads = λ _. outside;
}

first-Inv :
    {n : ℕ} {w : World}
    → IsQueue w (λ _. []) []
    → w.queue.num_threads ≡ n
    → Inv n (first_state w) []
first-Inv {n} {w} is size = record {
  own = is.own;
  cells = is.front ++ (w.queue.tail, is.last) ∷ [];
  end = w.queue.tail;
  pool = λ _. [];
  sentinel = is.sentinel;
  layout = record { front = is.front; last = is.last; shape = is.shape; all = refl };
  contents = values-concat is.front w.queue.tail is.last ∙ is.contents;
  size = size;
  known = λ t e. cc e;
  places = λ t. tt;
  enq_guard = record { holder = λ t e. cc e; within = λ t e. cc e; usable = λ e. cc e };
  deq_guard = record { holder = λ t e. cc e; within = λ t e. cc e; usable = λ e. cc e };
  at_end = λ _. refl;
}

-- After `init_queue` with memory for the node and the array.
init_queue-Inv :
    (m : Alloc) (n : ℕ) (w : World)
    → m.addr ≢ null
    → {s : State} → init_queue m true n w ≡ moved s
    → Inv n s []
unfolding init_queue
init_queue-Inv m n w ne {s} e =
    let (r, w', run, (is, size, kept)) = yielded (init_queue-IsQueue m n w ne) in
    let started : moved (first_state w') ≡ moved s = sym (ap with_locks run) ∙ e in
    subst (λ z. Inv n z []) (cc started) (first-Inv is size)

-- The states that `n` threads reach, with the events on the way.
pub data Reach (n : ℕ) : State → List Event → Type 0 where
  start :
      (m : Alloc) (w : World) {s : State}
      → m.addr ≢ null
      → init_queue m true n w ≡ moved s
      → Reach n s []
  invoke :
      {s : State} {log : List Event}
      → Reach n s log
      → (t : ℕ) (c : Call) → t < n
      → busy (s.threads t) ≡ false
      → Reach n (call t c s) log
  next :
      {s s' : State} {log : List Event}
      → Reach n s log
      → (t : ℕ) (m : Alloc) → IsFresh m s.world
      → step m t s ≡ moved s'
      → Reach n s' (event t (s.threads t) (s'.threads t) ++ log)

pub Reach-Inv :
    {n : ℕ} {s : State} {log : List Event}
    → Reach n s log
    → (xs : List Value) × (replay log ≡ some xs) × Inv n s xs
unfolding replay
Reach-Inv {n} (start m w ne e) = ([], refl, init_queue-Inv m n w ne e)
Reach-Inv (invoke r t c lt idle) =
    let (xs, e, inv) = Reach-Inv r in (xs, e, call-Inv inv t c lt idle)
Reach-Inv {n} (next {s = s} {log = log} r t m fresh e) =
    let (xs, holds, inv) = Reach-Inv r in
    let (xs', f, inv') = subst (Stepped n s xs t) e (step-Stepped inv t m fresh) in
    (xs', f log holds, inv')
