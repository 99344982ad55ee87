-- ===== src/LockFree/System.antt =====
-- All interleavings of the threads of Ex5.c, from `init_queue` on.
use amp_project.Base.{
  ℕ, ◌<◌, ◌≡◌, ◌≢◌, refl, sym, ◌∙◌, ap, subst, true, false, Option, none, some, List, [], ◌∷◌, ◌++◌,
  arith, ℕ_discrete,
}
use amp_project.Heap.{Ptr, null, Value, Alloc}
use amp_project.Heap.Seg.{has-concat, values-concat}
use amp_project.Sequential.Memory.{World, Exec, fault, starved, ok, Cmd}
use amp_project.Sequential.Shape.{IsQueue, yielded}
use amp_project.Sequential.Init.{init_queue-IsQueue}
use amp_project.Sequential.Pools.{IsFresh}
use amp_project.Threads.{Outcome, moved, update, update_self, update_ne, update-each, Event, replay}
use amp_project.LockFree.{
  Pc, outside, enq_begin, enq_alloc, enq_tail, enq_next, enq_check, enq_link, enq_swing, enq_help,
  deq_begin, deq_head, deq_tail, deq_next, deq_check, deq_help, deq_load, deq_swing, deq_retire,
  end_count, end_scan, end_spin, end_reclaim, State, Env, after, access, manage, either, step_at,
  step, Call, enqueue, dequeue, entry, busy, call, init_queue, with_counters,
}
use amp_project.LockFree.Places.{in_op}
use amp_project.LockFree.Counters.{
  AllKept, Possibly, Reach, start, invoke, next, Reach-AllKept, first_state,
}
use amp_project.LockFree.Sizes.{Same, step-Same}
use amp_project.LockFree.Ranges.{InRange, AllInRange, step-AllInRange, call-AllInRange}
use amp_project.LockFree.Invariant.{Ghost, Guard, Place, Mine, Seen, Inv}
use amp_project.LockFree.Stable.{Stable-same}
use amp_project.LockFree.Change.{Advanced, Runs, Accessed, Departed-keep}
use amp_project.LockFree.NewNode.{enq_alloc-Accessed}
use amp_project.LockFree.Enqueue.{
  enq_tail-Accessed, enq_next-Accessed, enq_check-Accessed, enq_swing-Accessed, enq_help-Accessed,
}
use amp_project.LockFree.Link.{enq_link-Accessed}
use amp_project.LockFree.Dequeue.{
  deq_head-Accessed, deq_tail-Accessed, deq_next-Accessed, deq_check-Accessed, deq_help-Accessed,
  deq_load-Accessed,
}
use amp_project.LockFree.Pop.{deq_swing-Accessed}
use amp_project.LockFree.Managing.{
  Stepped, begin_enq-Stepped, begin_deq-Stepped, retire-Stepped, count-Stepped, scan-Stepped,
  spin-Stepped,
}
use amp_project.LockFree.Reclaim.{reclaim-Stepped}

module _ (m : Alloc) (n : ℕ) (s : State) (xs : List Value) (t : ℕ) {pc : Pc}
    (here : s.threads t ≡ pc) where
  after-Stepped : (r : Exec Pc) → Runs m (Advanced n s xs t pc) r → Stepped m n s xs t (after t s r)
  after-Stepped fault nul = nul
  after-Stepped starved never = absurd never
  after-Stepped (ok pc' w) (xs', f, inv) = (xs', rw (here, update_self) f, inv)

  either-Stepped :
      (o : Option (Cmd Pc)) (managed : Outcome State)
      → Accessed m n s xs t pc o
      → Stepped m n s xs t managed
      → Stepped m n s xs t (either t s o managed)
  either-Stepped none managed a d = d
  either-Stepped (some c) managed a d = after-Stepped (c s.world) a

module _ {n : ℕ} {s : State} {xs : List Value} (inv : Inv n s xs) (all : AllKept s)
    (size : s.world.queue.num_threads ≡ n) (ranges : AllInRange n s) (t : ℕ) (e : Env)
    (fresh : IsFresh e.block s.world) where
  mine_of : (pc : Pc) → s.threads t ≡ pc → Place s.world inv.ghost t pc
  mine_of pc here = rw here at (inv.places t)

  in_range : (pc : Pc) → s.threads t ≡ pc → busy pc ≡ true → t < s.world.queue.num_threads
  in_range pc here active = rw size (inv.known t (rw here active))

  access-Accessed : (pc : Pc) → s.threads t ≡ pc → Accessed e.block n s xs t pc (access e t pc)
  unfolding access
  access-Accessed (enq_alloc k v) here =
      (enq_alloc-Accessed inv all t k v here e fresh (in_range _ here refl))
  access-Accessed (enq_tail k v p) here = (enq_tail-Accessed inv all t e k v p here)
  access-Accessed (enq_next k v p l) here = (enq_next-Accessed inv all t e k v p l here)
  access-Accessed (enq_check k v p l x) here = (enq_check-Accessed inv all t e k v p l x here)
  access-Accessed (enq_link k v p l) here =
      let (mine, seen) : Mine s.world inv.ghost t p v × Seen inv.ghost t l = mine_of _ here in
      (enq_link-Accessed inv all t k v p l here mine e seen)
  access-Accessed (enq_swing k p l) here = (enq_swing-Accessed inv all t e k p l here)
  access-Accessed (enq_help k v p l x) here = (enq_help-Accessed inv all t e k v p l x here)
  access-Accessed (deq_head k) here = (deq_head-Accessed inv all t e k here)
  access-Accessed (deq_tail k f) here = (deq_tail-Accessed inv all t e k f here)
  access-Accessed (deq_next k f l) here = (deq_next-Accessed inv all t e k f l here)
  access-Accessed (deq_check k f l x) here = (deq_check-Accessed inv all t e k f l x here)
  access-Accessed (deq_help k l x) here = (deq_help-Accessed inv all t e k l x here)
  access-Accessed (deq_load k f x) here = (deq_load-Accessed inv all t e k f x here)
  access-Accessed (deq_swing k f x v) here = (deq_swing-Accessed inv all t e k f x v here)
  access-Accessed _ here = tt

  manage-Stepped : (pc : Pc) → s.threads t ≡ pc → Stepped e.block n s xs t (manage e t pc s)
  unfolding manage
  manage-Stepped (enq_begin k v) here = begin_enq-Stepped inv all t e k v here size
  manage-Stepped (deq_begin k) here = begin_deq-Stepped inv all t e k here size
  manage-Stepped (deq_retire k f v) here = retire-Stepped inv all t e k f v here size
  manage-Stepped (end_count k r) here = count-Stepped inv all t e k r here size
  manage-Stepped (end_scan k r i) here =
      scan-Stepped inv all t e size k r i here (rw size (subst (InRange n) here (ranges t)))
  manage-Stepped (end_spin k r i c) here =
      spin-Stepped inv all t e size k r i c here (rw size (subst (InRange n) here (ranges t)))
  manage-Stepped (end_reclaim k r) here =
      reclaim-Stepped inv all t e k r here (in_range _ here refl)
  manage-Stepped _ here = tt

  pub step-Stepped : Stepped e.block n s xs t (step e t s)
  unfolding step step_at
  step-Stepped =
      either-Stepped e.block n s xs t refl (access e t (s.threads t)) (manage e t (s.threads t) s)
        (access-Accessed (s.threads t) refl) (manage-Stepped (s.threads t) refl)

Guard-busy : (u c : ℕ) (rs : List Ptr) (p : Ptr) (pc : Pc) → Guard u c pc rs p → busy pc ≡ true
Guard-busy u c rs p (deq_retire k f v) g = refl
Guard-busy u c rs p (end_count k r) g = refl
Guard-busy u c rs p (end_scan k r i) g = refl
Guard-busy u c rs p (end_spin k r i v) g = refl
Guard-busy u c rs p outside g = absurd g
Guard-busy u c rs p _ g = absurd g

entry_idle : (c : Call) → in_op (entry c) ≡ false
unfolding entry
entry_idle (enqueue k v) = refl
entry_idle (dequeue k) = refl

entry-Place : (w : World) (g : Ghost) (t : ℕ) (c : Call) → Place w g t (entry c)
unfolding entry
entry-Place w g t (enqueue k v) = tt
entry-Place w g t (dequeue k) = tt

call-Inv :
    {n : ℕ} {s : State} {xs : List Value}
    → Inv n s xs
    → (t : ℕ) (c : Call) → t < n
    → busy (s.threads t) ≡ false
    → Inv n (call t c s) xs
unfolding call
call-Inv {n} {s} inv t c lt idle = record {
  ghost = inv.ghost;
  end = inv.end;
  pool = inv.pool;
  sentinel = inv.sentinel;
  layout = inv.layout;
  contents = inv.contents;
  at_tail = inv.at_tail;
  known =
      update-each (λ u p. busy p ≡ true → u < n) s.threads t (entry c) (λ _. lt)
        (λ u ne. inv.known u);
  places =
      update-each (λ u p. Place s.world inv.ghost u p) s.threads t (entry c)
        (entry-Place s.world inv.ghost t c) (λ u ne. inv.places u);
  retired = inv.retired;
  departed = λ u p i gone. elim (ℕ_discrete u t) [
    | yes e ↦
        let i' =
          ap in_op (ap (update s.threads t (entry c)) e ∙ update_self s.threads t (entry c)) in
        cc (i, i', entry_idle c)
    | no ne ↦
        let was : in_op (s.threads u) ≡ true = rw (update_ne s.threads t u (entry c) ne) at i in
        Departed-keep inv t refl (entry c)
          {s' = record s { threads = update s.threads t (entry c) }} refl (λ u ne. refl) u p refl
          (Stable-same refl refl refl refl (λ q j. (refl, refl))) was gone
          (λ g. cc (Guard-busy u (s.ctr u) (s.retired t) p (s.threads t) g, idle))
  ];
}

-- After `init_queue`.
first-Inv : {n : ℕ} {w : World} → IsQueue w (λ _. []) [] → Inv n (first_state w) []
first-Inv {n} {w} is = record {
  ghost = record {
    own = is.own;
    cells = is.front ++ (w.queue.tail, is.last) ∷ [];
    gone = λ u p. false;
  };
  end = w.queue.tail;
  pool = λ _. [];
  sentinel = is.sentinel;
  layout = record { front = is.front; last = is.last; shape = is.shape; all = refl };
  contents = values-concat is.front w.queue.tail is.last ∙ is.contents;
  at_tail = rw (has-concat w.queue.tail is.front w.queue.tail is.last) (ground arith);
  known = λ t e. cc e;
  places = λ t. tt;
  retired = λ t p e. cc e;
  departed = λ u p i gone. cc gone;
}

init_queue-Inv :
    (m : Alloc) (n : ℕ) (w : World)
    → m.addr ≢ null
    → {s : State} → init_queue m true n w ≡ moved s
    → Inv n s [] × (s.world.queue.num_threads ≡ n) × AllInRange n s
unfolding init_queue
init_queue-Inv m n w ne {s} e =
    let (r, w', run, (is, size, kept)) = yielded (init_queue-IsQueue m n w ne) in
    let started : moved (first_state w') ≡ moved s = sym (ap with_counters run) ∙ e in
    subst (λ z. Inv n z [] × (z.world.queue.num_threads ≡ n) × AllInRange n z) (cc started)
      (first-Inv is, size, λ t. tt)

-- The arrays have `n` entries, and every loop variable is in their range.
pub Reach-AllInRange :
    {n : ℕ} {s : State} {log : List Event}
    → Reach n s log
    → (s.world.queue.num_threads ≡ n) × AllInRange n s
unfolding call
Reach-AllInRange {n} (start m w ne e) =
    let (inv, size, ranges) = init_queue-Inv m n w ne e in (size, ranges)
Reach-AllInRange {n} (invoke {s} r t c lt idle) =
    let (size, ranges) = Reach-AllInRange r in (size, call-AllInRange n t s ranges c)
Reach-AllInRange {n} (next {s} r t e fresh moves) =
    let (size, ranges) = Reach-AllInRange r in
    (
      subst (Same s.world.queue.num_threads) moves (step-Same e t s) ∙ size,
      subst (Possibly (AllInRange n)) moves (step-AllInRange n t s ranges size e),
    )

pub Reach-Inv :
    {n : ℕ} {s : State} {log : List Event}
    → Reach n s log
    → (xs : List Value) × (replay log ≡ some xs) × Inv n s xs × (s.world.queue.num_threads ≡ n)
unfolding replay call
Reach-Inv {n} (start m w ne e) =
    let (inv, size, ranges) = init_queue-Inv m n w ne e in ([], refl, inv, size)
Reach-Inv (invoke r t c lt idle) =
    let (xs, e, inv, size) = Reach-Inv r in (xs, e, call-Inv inv t c lt idle, size)
Reach-Inv {n} (next {s = s} {log = log} r t e fresh moves) =
    let (xs, holds, inv, size) = Reach-Inv r in
    let (xs', f, inv') =
      subst (Stepped e.block n s xs t) moves
        (step-Stepped inv (Reach-AllKept r) size (Reach-AllInRange r).1 t e fresh) in
    (xs', f log holds, inv', subst (Same s.world.queue.num_threads) moves (step-Same e t s) ∙ size)
