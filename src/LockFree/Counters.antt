-- ===== src/LockFree/Counters.antt =====
-- The counters and the lists of retired nodes of Ex5.c, in every reachable state.
use amp_project.Base.{
  ℕ, ◌+◌, ◌%◌, ◌^◌, ◌≤◌, ◌<◌, ◌≡◌, ◌≢◌, refl, sym, ◌∙◌, subst, true, false, Bool-cases, Option,
  none, some, List, [], ◌∷◌, ◌++◌, ◌==◌, if◌then◌else◌, inl, inr, arith, ℕ_discrete, length,
}
use amp_project.Heap.{Ptr, null, Alloc}
use amp_project.Sequential.Memory.{World, Exec, fault, starved, ok, Cmd, follow, give}
use amp_project.Sequential.Pools.{IsFresh}
use amp_project.Threads.{Outcome, broken, blocked, moved, update, update_self, update_ne, Event}
use amp_project.LockFree.{
  Counts, Result, dequeued, Pc, outside, enq_begin, enq_alloc, deq_begin, deq_head, deq_retire,
  end_count, end_scan, end_spin, end_reclaim, done, State, Env, is_odd, count_up, after, access,
  end_test, manage, either, step_at, step, Call, entry, busy, call, event, init_queue,
  with_counters,
}
use amp_project.LockFree.Memory.{reclaim}
use amp_project.LockFree.Indices.{at_entry-either, scanned, scan-either}
use amp_project.LockFree.Places.{in_op, waits, clear, Ends, Accessed, access-Accessed}

-- What a thread's place says of its counter and its retired nodes.
pub record Kept (ctr : ℕ) (retired : List Ptr) (count : ℕ) (p : Pc) : Type 0 where
  pub parity : is_odd ctr ≡ in_op p
  pub counted : count ≡ length retired
  pub single : length retired ≤ 1
  pub waiting : waits p ≡ true → length retired ≡ 1
  pub none_retired : clear p ≡ true → length retired ≡ 0

abbrev pub AllKept : State → Type 0
AllKept s = (t : ℕ) → Kept (s.ctr t) (s.retired t) (s.retired_count t) (s.threads t)

-- A predicate of the state after a step, if there is one.
abbrev pub Possibly : (State → Type 0) → Outcome State → Type 0
Possibly P broken = Unit {0}
Possibly P blocked = Unit {0}
Possibly P (moved s) = P s

-- the fields of thread `u` are as they were
record Same (s s' : State) (u : ℕ) : Type 0 where
  ctr : s'.ctr u ≡ s.ctr u
  retired : s'.retired u ≡ s.retired u
  count : s'.retired_count u ≡ s.retired_count u
  threads : s'.threads u ≡ s.threads u

AllKept-step :
    (s s' : State) (t : ℕ)
    → AllKept s
    → Kept (s'.ctr t) (s'.retired t) (s'.retired_count t) (s'.threads t)
    → ((u : ℕ) → u ≢ t → Same s s' u)
    → AllKept s'
AllKept-step s s' t all new same u = elim (ℕ_discrete t u) [
  | yes e ↦ subst (λ i. Kept (s'.ctr i) (s'.retired i) (s'.retired_count i) (s'.threads i)) e new
  | no ne ↦ let f = same u (λ e. ne (sym e)) in rw (f.ctr, f.retired, f.count, f.threads) (all u)
]

module _ (s : State) (t : ℕ) (all : AllKept s) {pc : Pc} (here : s.threads t ≡ pc) where
  old : Kept (s.ctr t) (s.retired t) (s.retired_count t) pc
  old = rw here at (all t)

  -- the counter goes up
  counted-AllKept :
      (pc' : Pc)
      → Kept ((s.ctr t + 1) % 2 ^ 64) (s.retired t) (s.retired_count t) pc'
      → AllKept (record s { ctr = count_up t s.ctr; threads = update s.threads t pc' })
  counted-AllKept pc' new =
      AllKept-step s (record s { ctr = count_up t s.ctr; threads = update s.threads t pc' }) t all
        (rw (update_self s.ctr t ((s.ctr t + 1) % 2 ^ 64), update_self s.threads t pc') new)
        (λ u ne. record {
          ctr = update_ne s.ctr t u _ ne;
          retired = refl;
          count = refl;
          threads = update_ne s.threads t u pc' ne;
        })

  -- only the place changes
  moved-AllKept :
      (pc' : Pc) (w : World)
      → Kept (s.ctr t) (s.retired t) (s.retired_count t) pc'
      → AllKept (record s { world = w; threads = update s.threads t pc' })
  moved-AllKept pc' w new =
      AllKept-step s (record s { world = w; threads = update s.threads t pc' }) t all
        (rw (update_self s.threads t pc') new)
        (λ u ne. record {
          ctr = refl;
          retired = refl;
          count = refl;
          threads = update_ne s.threads t u pc' ne;
        })

  -- the retired nodes change
  retired-AllKept :
      (pc' : Pc) (w : World) (r : List Ptr) (c : ℕ)
      → Kept (s.ctr t) r c pc'
      → AllKept (record s {
        world = w;
        retired = update s.retired t r;
        retired_count = update s.retired_count t c;
        threads = update s.threads t pc';
      })
  retired-AllKept pc' w r c new =
      AllKept-step s
        (record s {
          world = w;
          retired = update s.retired t r;
          retired_count = update s.retired_count t c;
          threads = update s.threads t pc';
        })
        t all
        (rw
          (update_self s.retired t r, update_self s.retired_count t c, update_self s.threads t pc')
          new)
        (λ u ne. record {
          ctr = refl;
          retired = update_ne s.retired t u r ne;
          count = update_ne s.retired_count t u c ne;
          threads = update_ne s.threads t u pc' ne;
        })

reclaimed-AllKept :
    (s : State) (t : ℕ) (all : AllKept s) {k : Counts} {r : Result}
    (here : s.threads t ≡ end_reclaim k r) (run : Exec (Option ℕ))
    → Possibly AllKept (
        after t
          (record s { retired = update s.retired t []; retired_count = update s.retired_count t 0 })
          (follow (λ c. give (done (record k { inserted = c }) r)) run))
reclaimed-AllKept s t all here fault = tt
reclaimed-AllKept s t all here starved = tt
reclaimed-AllKept s t all {k} {r} here (ok c w) =
    let o = old s t all here in
    retired-AllKept s t all here (done (record k { inserted = c }) r) w [] 0 (ground (arith, o))

-- The steps of the memory management.
manage-AllKept :
    (e : Env) (t : ℕ) (pc : Pc) (s : State)
    → AllKept s
    → s.threads t ≡ pc
    → Possibly AllKept (manage e t pc s)
unfolding manage
manage-AllKept e t (enq_begin k v) s all here =
    let o = old s t all here in
    at_entry-either (Possibly AllKept) t s tt
      λ _. counted-AllKept s t all here (enq_alloc k v) (ground (arith, o))
manage-AllKept e t (deq_begin k) s all here =
    let o = old s t all here in
    at_entry-either (Possibly AllKept) t s tt
      λ _. counted-AllKept s t all here (deq_head k) (ground (arith, o))
manage-AllKept e t (deq_retire k first v) s all here =
    let o = old s t all here in
    elim (Bool-cases (e.block.addr == null)) [
      | inl nul ↦ rw nul tt
      | inr got ↦ rw got (
          at_entry-either (Possibly AllKept) t s tt λ _.
            retired-AllKept s t all here (end_count k (dequeued (some v))) s.world
              (first ∷ s.retired t) (s.retired_count t + 1) (ground (arith, o)))
    ]
manage-AllKept e t (end_count k r) s all here =
    let o = old s t all here in
    at_entry-either (Possibly AllKept) t s tt
      λ _. counted-AllKept s t all here (end_test (s.retired_count t) k r) (ground (arith, o))
manage-AllKept e t (end_scan k r i) s all here =
    let o = old s t all here in
    scan-either t k r i s (Possibly AllKept) tt (
      moved-AllKept s t all here (scanned t s.world.queue.num_threads s.ctr k r i) s.world
        (ground (arith, o)))
manage-AllKept e t (end_spin k r i v) s all here =
    let o = old s t all here in
    at_entry-either (Possibly AllKept) i s tt λ _.
      moved-AllKept s t all here (if s.ctr i == v then end_spin k r i v else end_scan k r (i + 1))
        s.world (ground (arith, o))
manage-AllKept e t (end_reclaim k r) s all here =
    at_entry-either (Possibly AllKept) t s tt
      λ _. reclaimed-AllKept s t all here (reclaim t (s.retired t) k.inserted s.world)
manage-AllKept e t _ s all here = tt

accessed-AllKept :
    (s : State) (t : ℕ) {pc : Pc}
    → AllKept s
    → s.threads t ≡ pc
    → in_op pc ≡ true
    → clear pc ≡ true
    → (r : Exec Pc) → Ends r
    → Possibly AllKept (after t s r)
accessed-AllKept s t all here i c fault e = tt
accessed-AllKept s t all here i c starved e = tt
accessed-AllKept s t {pc} all here i c (ok pc' w) (i', w') =
    let o = old s t all here in
    moved-AllKept s t all here pc' w (record {
      parity = o.parity ∙ i ∙ sym i';
      counted = o.counted;
      single = o.single;
      waiting = λ e. cc;
      none_retired = λ _. o.none_retired c;
    })

either-AllKept :
    (s : State) (t : ℕ) {pc : Pc} (o : Option (Cmd Pc)) (managed : Outcome State)
    → AllKept s
    → s.threads t ≡ pc
    → Accessed pc o
    → Possibly AllKept managed
    → Possibly AllKept (either t s o managed)
either-AllKept s t none managed all here a m = m
either-AllKept s t (some c) managed all here (i, cl, ends) m =
    accessed-AllKept s t all here i cl (c s.world) (ends s.world)

step_at-AllKept :
    (e : Env) (t : ℕ) (pc : Pc) (s : State)
    → AllKept s
    → s.threads t ≡ pc
    → Possibly AllKept (step_at e t pc s)
unfolding step_at
step_at-AllKept e t pc s all here =
    either-AllKept s t (access e t pc) (manage e t pc s) all here (access-Accessed e t pc)
      (manage-AllKept e t pc s all here)

step-AllKept : (e : Env) (t : ℕ) (s : State) → AllKept s → Possibly AllKept (step e t s)
unfolding step
step-AllKept e t s all = step_at-AllKept e t (s.threads t) s all refl

entry-Kept :
    (c : Call) (ctr : ℕ) (retired : List Ptr) (count : ℕ) (p : Pc)
    → busy p ≡ false
    → Kept ctr retired count p
    → Kept ctr retired count (entry c)
unfolding entry
entry-Kept c ctr retired count outside idle k = ground arith
entry-Kept c ctr retired count _ idle k = ground arith

-- The states that `n` threads reach, with the events on the way, the latest first.
pub data Reach (n : ℕ) : State → List Event → Type 0 where
  start :
      {s : State} (m : Alloc) (w : World)
      → m.addr ≢ null
      → init_queue m true n w ≡ moved s
      → Reach n s []
  invoke :
      {s : State} {log : List Event}
      → Reach n s log
      → (t : ℕ) (c : Call) → t < n
      → busy (s.threads t) ≡ false
      → Reach n (call t c s) log
  next :
      {s s' : State} {log : List Event}
      → Reach n s log
      → (t : ℕ) (e : Env) → IsFresh e.block s.world
      → step e t s ≡ moved s'
      → Reach n s' (event t (s.threads t) (s'.threads t) ++ log)

abbrev pub first_state : World → State
first_state w = record {
  world = w;
  ctr = λ _. 0;
  retired = λ _. [];
  retired_count = λ _. 0;
  threads = λ _. outside;
}

started-AllKept : (r : Exec (Unit {0})) (s : State) → with_counters r ≡ moved s → AllKept s
started-AllKept fault s e = cc e
started-AllKept starved s e = cc e
started-AllKept (ok u w) s e =
    let same : first_state w ≡ s = cc e in
    subst AllKept same λ t. record {
      parity = refl;
      counted = refl;
      single = omega arith;
      waiting = λ e. cc e;
      none_retired = λ _. refl;
    }

-- In every reachable state and for every thread: its counter is odd exactly while it is in an
-- operation, retired_count is the length of its list of retired nodes, and that holds one node while
-- the thread waits to give it back, at most one at the end of an operation, and none elsewhere.
pub Reach-AllKept : {n : ℕ} {s : State} {log : List Event} → Reach n s log → AllKept s
unfolding init_queue call
Reach-AllKept (start {s} m w ne e) = started-AllKept _ s e
Reach-AllKept (invoke {s} r t c lt idle) =
    let all = Reach-AllKept r in
    moved-AllKept s t all refl (entry c) s.world
      (entry-Kept c (s.ctr t) (s.retired t) (s.retired_count t) (s.threads t) idle (all t))
Reach-AllKept (next {s} r t e fresh moves) =
    subst (Possibly AllKept) moves (step-AllKept e t s (Reach-AllKept r))
