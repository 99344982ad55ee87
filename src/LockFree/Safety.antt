-- ===== src/LockFree/Safety.antt =====
-- What holds for Ex5.c under every interleaving: order, safety of memory, and what is given back.
use amp_project.Base.{
  ℕ, ◌≡◌, ◌≢◌, refl, true, ◌⊎◌, inl, inr, some, List, [], Bool-cases, Option, none, ◌==◌,
}
use amp_project.Heap.{Ptr, null, Value, free_of, Owners}
use amp_project.Heap.Seg.{◌∉◌, not-mem_of_owner}
use amp_project.Sequential.Memory.{FreeList, list_at, Exec, fault, starved, ok, Cmd}
use amp_project.Sequential.Shape.{Pool, IsFreeList}
use amp_project.Sequential.Pools.{IsFresh}
use amp_project.Sequential.Contents.{Holds}
use amp_project.Threads.{Outcome, broken, blocked, moved, update, Event, replay}
use amp_project.LockFree.{
  Pc, outside, enq_next, enq_check, enq_link, enq_swing, enq_help, deq_tail, deq_next, deq_check,
  deq_help, deq_load, deq_swing, deq_retire, end_reclaim, enq_begin, deq_begin, end_count, end_scan,
  end_spin, done, State, Env, access, manage, after, either, step_at, step, busy,
}
use amp_project.LockFree.Indices.{at_entry-either, scan-either}
use amp_project.LockFree.Places.{in_op}
use amp_project.LockFree.Counters.{Reach, Reach-AllKept}
use amp_project.LockFree.Nodes.{holds_all}
use amp_project.LockFree.Invariant.{Seen, Seen-owner, Old-Seen, Linked, Place, Inv}
use amp_project.LockFree.Managing.{Stepped}
use amp_project.LockFree.System.{Reach-Inv, Reach-AllInRange, step-Stepped}

-- In every reachable state the queue in memory holds what a FIFO list holds after the events so far:
-- each value taken was the oldest then, and each `first->next` that was read as NULL met an empty
-- list.
pub refines_fifo :
    {n : ℕ} {s : State} {log : List Event}
    → Reach n s log
    → (xs : List Value) × (replay log ≡ some xs) × Holds s.world.heap s.world.queue.head xs
refines_fifo r = let (xs, e, inv, size) = Reach-Inv r in (xs, e, holds_all inv.layout inv.contents)

abbrev Unblocked : Outcome State → Type 0
Unblocked blocked = ⊥
Unblocked _ = Unit {0}

abbrev Ready : Option (Cmd Pc) → Outcome State → Type 0
Ready none managed = Unblocked managed
Ready (some c) managed = Unit {0}

module _ (e : Env) (t : ℕ) (s : State) where
  after-Unblocked : (s1 : State) (r : Exec Pc) → Unblocked (after t s1 r)
  after-Unblocked s1 fault = tt
  after-Unblocked s1 starved = tt
  after-Unblocked s1 (ok pc w) = tt

  either-Unblocked :
      (o : Option (Cmd Pc)) (managed : Outcome State)
      → Ready o managed
      → Unblocked (either t s o managed)
  either-Unblocked none managed ready = ready
  either-Unblocked (some c) managed ready = after-Unblocked s (c s.world)

  -- No place in a call waits for another thread within a step.
  step_at-Unblocked : (pc : Pc) → busy pc ≡ true → Unblocked (step_at e t pc s)
  unfolding step_at access manage
  step_at-Unblocked outside b = cc
  step_at-Unblocked (done k r) b = cc
  step_at-Unblocked (deq_retire k f v) b = elim (Bool-cases (e.block.addr == null)) [
    | inl nul ↦ rw nul tt
    | inr got ↦ rw got (at_entry-either Unblocked t s tt λ _. tt)
  ]
  step_at-Unblocked (end_reclaim k r) b = at_entry-either Unblocked t s tt λ _.
      after-Unblocked
        (record s { retired = update s.retired t []; retired_count = update s.retired_count t 0 }) _
  step_at-Unblocked (enq_begin k v) b = at_entry-either Unblocked t s tt λ _. tt
  step_at-Unblocked (deq_begin k) b = at_entry-either Unblocked t s tt λ _. tt
  step_at-Unblocked (end_count k r) b = at_entry-either Unblocked t s tt λ _. tt
  step_at-Unblocked (end_scan k r i) b = scan-either t k r i s Unblocked tt tt
  step_at-Unblocked (end_spin k r i v) b = at_entry-either Unblocked i s tt λ _. tt
  step_at-Unblocked pc b = either-Unblocked (access e t pc) (manage e t pc s) tt

-- In every reachable state each thread in a call can take its next step, with a block from `malloc`
-- that is not NULL and not in use: it has no undefined behaviour, so no access of NULL or of memory
-- that is not allocated, and no index at or above `num_threads` into `free_lists`, `ctr`, `retired`
-- or `retired_count`; and no thread is blocked within a step.
pub always_moves :
    {n : ℕ} {s : State} {log : List Event}
    → Reach n s log
    → (t : ℕ) → busy (s.threads t) ≡ true
    → (e : Env) → e.block.addr ≢ null
    → IsFresh e.block s.world
    → (s' : State) × (step e t s ≡ moved s')
unfolding step
always_moves {n} {s} r t active e got fresh =
    let (xs, log_is, inv, size) = Reach-Inv r in
    go xs (step e t s) (step-Stepped inv (Reach-AllKept r) size (Reach-AllInRange r).1 t e fresh)
      (step_at-Unblocked e t s (s.threads t) active)
  where
    go :
        (xs : List Value) (o : Outcome State)
        → Stepped e.block n s xs t o
        → Unblocked o
        → (s' : State) × (o ≡ moved s')
    go xs broken nul u = absurd (got nul)
    go xs blocked st u = absurd u
    go xs (moved s') st u = (s', refl)

-- The nodes of the queue that a thread has pointers to and may still use.
abbrev pub Uses : Pc → Ptr → Type 0
Uses (enq_next k v n l) q = q ≡ l
Uses (enq_check k v n l x) q = q ≡ l
Uses (enq_link k v n l) q = q ≡ l
Uses (enq_swing k n l) q = (q ≡ l) ⊎ (q ≡ n)
Uses (enq_help k v n l x) q = (q ≡ l) ⊎ (q ≡ x)
Uses (deq_tail k f) q = q ≡ f
Uses (deq_next k f l) q = q ≡ f
Uses (deq_check k f l x) q = q ≡ f
Uses (deq_help k l x) q = (q ≡ l) ⊎ (q ≡ x)
Uses (deq_load k f x) q = (q ≡ f) ⊎ (q ≡ x)
Uses (deq_swing k f x v) q = (q ≡ f) ⊎ (q ≡ x)
Uses _ q = ⊥

Uses-in_op : (pc : Pc) (q : Ptr) → Uses pc q → in_op pc ≡ true
Uses-in_op outside q i = absurd i
Uses-in_op (enq_next k v n l) q i = refl
Uses-in_op (enq_check k v n l x) q i = refl
Uses-in_op (enq_link k v n l) q i = refl
Uses-in_op (enq_swing k n l) q i = refl
Uses-in_op (enq_help k v n l x) q i = refl
Uses-in_op (deq_tail k f) q i = refl
Uses-in_op (deq_next k f l) q i = refl
Uses-in_op (deq_check k f l x) q i = refl
Uses-in_op (deq_help k l x) q i = refl
Uses-in_op (deq_load k f x) q i = refl
Uses-in_op (deq_swing k f x v) q i = refl
Uses-in_op _ q i = absurd i

module _ {n : ℕ} {s : State} {xs : List Value} (inv : Inv n s xs) (u : ℕ) where
  either_end :
      (l x q : Ptr) → Linked s.world inv.ghost u l x → (q ≡ l) ⊎ (q ≡ x) → Seen inv.ghost u q
  either_end l x q k (inl e) = rw e k.seen
  either_end l x q k (inr e) = rw e k.onward

  Uses-Seen : (pc : Pc) → Place s.world inv.ghost u pc → (q : Ptr) → Uses pc q → Seen inv.ghost u q
  Uses-Seen outside p q i = absurd i
  Uses-Seen (enq_next k v n l) (m, i) q e = rw e i
  Uses-Seen (enq_check k v n l x) (m, i, f) q e = rw e i
  Uses-Seen (enq_link k v n l) (m, i) q e = rw e i
  Uses-Seen (enq_swing k n l) i q e = either_end l n q i e
  Uses-Seen (enq_help k v n l x) (m, i) q e = either_end l x q i e
  Uses-Seen (deq_tail k f) o q e = rw e (Old-Seen inv u f o)
  Uses-Seen (deq_next k f l) (o, a) q e = rw e (Old-Seen inv u f o)
  Uses-Seen (deq_check k f l x) (o, a, i, j) q e = rw e (Old-Seen inv u f o)
  Uses-Seen (deq_help k l x) i q e = either_end l x q i e
  Uses-Seen (deq_load k f x) (o, a, i) q e = either_end f x q i e
  Uses-Seen (deq_swing k f x v) (o, a, i, j) q e = either_end f x q i e
  Uses-Seen _ p q i = absurd i

  free-ne-Seen :
      in_op (s.threads u) ≡ true
      → (q : Ptr) → Seen inv.ghost u q
      → (t : ℕ) → inv.ghost.own q ≢ free_of t
  free-ne-Seen active q i t e = elim (Seen-owner inv u active q i) [
    | inl o ↦ cc (o, e)
    | inr h ↦ cc (h.owner, e)
  ]

-- In every reachable state each thread's free list is a chain of distinct nodes that ends at NULL and
-- is counted modulo 2^32, and none of its nodes is one that some thread may still use.
pub free_lists_apart :
    {n : ℕ} {s : State} {log : List Event}
    → Reach n s log
    → (own : Owners) × (pool : Pool) × ((t : ℕ) (l : FreeList)
        → list_at s.world.queue.free_lists t ≡ some l
        → IsFreeList s.world.heap own t l (pool t)
          × ((u : ℕ) (q : Ptr) → Uses (s.threads u) q → q ∉ pool t))
free_lists_apart {n} {s} r =
    let (xs, log_is, inv, size) = Reach-Inv r in
    (
      inv.ghost.own,
      inv.pool,
      λ t l listed.
          let f = inv.layout.shape.lists t l listed in
          (
            f,
            λ u q i. not-mem_of_owner q f.chain (
                free-ne-Seen inv u (Uses-in_op (s.threads u) q i) q
                  (Uses-Seen inv u (s.threads u) (inv.places u) q i) t),
          ),
    )
