-- ===== src/Archived/Alone.antt =====
-- Calls of the archived queue that do not overlap behave as those of Ex1.c.
use amp_project.Base.{
  ℕ, suc, ◌≡◌, ◌≢◌, refl, false, none, some, List, [], ◌∷◌, ◌==◌, Bool-cases, inl, inr, ==_refl,
}
use amp_project.Heap.{null, Value, Node}
use amp_project.Threads.{unlocked}
use amp_project.Peterson.{Side, enqueuer, dequeuer}
use amp_project.Sequential.Memory.{World, Exec, ok, fault, starved, Cmd, load}
use amp_project.Sequential.Shape.{Pool, IsQueue, yielded, load-ok}
use amp_project.Sequential.Ends.{head-next-null, head-next-some}
use amp_project.Sequential.Memory
use amp_project.Sequential.History
use amp_project.Sequential.History.{
  Call, enqueue, dequeue, Outcome, enqueued, dequeued, Fifo, call_spec, calls_spec, Admissible,
  IsCall, Refines, perform-Steps,
}
use amp_project.Archived.{
  State, done, guarded, enq, deq, perform, perform_all, lock_peterson, unlock_peterson, busy_wait,
}

-- No lock is set, and no flag.
abbrev pub quiet : World → (victim : Side) → State
quiet w v = record {
  world = w;
  enq_lock = unlocked;
  deq_lock = unlocked;
  plock = record { flag_enq = false; flag_deq = false; victim = v };
}

sentinel_of :
    {w : World} {pool : Pool} (xs : List Value)
    → IsQueue w pool xs
    → (n : Node) × (w.queue.head ≢ null) × (w.heap w.queue.head ≡ some n)
sentinel_of [] is = let (n, ne, e, _) = head-next-null is refl in (n, ne, e)
sentinel_of (x ∷ xs) is = let (n, ne, e, _) = head-next-some is in (n, ne, e)

module _ {A : Type 0} {w w' : World} {pool : Pool} {xs : List Value} (is : IsQueue w pool xs)
    (k : ℕ) (body : Cmd A) {a : A} (runs : body w ≡ ok a w') (t : ℕ) (v : Side) where
  guarded-quiet :
      (side : Side) → (v' : Side) × (guarded (suc k) side t body (quiet w v) ≡ done a (quiet w' v'))
  unfolding guarded lock_peterson unlock_peterson busy_wait
  guarded-quiet enqueuer =
      let (n, ne, e) = sentinel_of xs is in
      elim (Bool-cases (n.next == w.queue.tail)) [
        | inl aba ↦ (enqueuer, rw (load-ok w ne e, aba, runs, ==_refl t) refl)
        | inr free ↦ (v, rw (load-ok w ne e, free, runs, ==_refl t) refl)
      ]
  guarded-quiet dequeuer =
      let (n, ne, e) = sentinel_of xs is in
      elim (Bool-cases (n.next == w.queue.tail)) [
        | inl aba ↦ (dequeuer, rw (load-ok w ne e, aba, runs, ==_refl t) refl)
        | inr free ↦ (v, rw (load-ok w ne e, free, runs, ==_refl t) refl)
      ]

-- A command that a call wraps up returned what the call returned.
unwrapped :
    {A B : Type 0} (f : A → B) {b : B} {w' : World} (r : Exec A)
    → Memory.follow (λ a. Memory.give (f a)) r ≡ ok b w'
    → (a : A) × (r ≡ ok a w') × (f a ≡ b)
unwrapped f (ok a w) e = (a, cc e, cc e)
unwrapped f fault e = cc e
unwrapped f starved e = cc e

perform-quiet :
    {w w' : World} {pool : Pool} {xs : List Value} (k : ℕ) (v : Side) (c : Call) {r : Outcome}
    → IsQueue w pool xs
    → History.perform c w ≡ ok r w'
    → (v' : Side) × (perform (suc k) c (quiet w v) ≡ done r (quiet w' v'))
unfolding History.perform perform enq deq
perform-quiet {w} k v (enqueue m x t) is e =
    let (a, runs, same) = unwrapped enqueued (amp_project.Sequential.enq m x t w) e in
    let (v', done_so) = guarded-quiet is k (amp_project.Sequential.enq m x t) runs t v enqueuer in
    (v', rw (done_so, same) refl)
perform-quiet {w} k v (dequeue t) is e =
    let (a, runs, same) =
      unwrapped (λ out. dequeued out.0) (amp_project.Sequential.deq t none w) e in
    let (v', done_so) = guarded-quiet is k (amp_project.Sequential.deq t none) runs t v dequeuer in
    (v', rw (done_so, same) refl)

-- From a queue with no lock set, of `n` threads, that stands for a FIFO: calls one after the other,
-- each by a thread that exists and with a fresh block or NULL from `malloc`, all return with one round
-- of the busy wait for fuel, give the results of the FIFO, and leave no lock set.
pub perform_all-quiet :
    {n : ℕ} (k : ℕ) (cs : List Call) {w : World} {s : Fifo} (v : Side)
    → Refines n w s
    → Admissible n cs w
    → (w' : World) × (v' : Side) × (perform_all (suc k) cs (quiet w v)
        ≡ done (calls_spec cs s) (quiet w' v'))
unfolding perform_all calls_spec
perform_all-quiet k [] {w} v ref adm = (w, v, refl)
perform_all-quiet k (c ∷ cs) v ref (ok_c, next) =
    let (r, w1, e, (same, ref')) = yielded (perform-Steps ref c ok_c) in
    let (v1, ran) = perform-quiet k v c ref.is e in
    let (w', v', rest) = perform_all-quiet k cs v1 ref' (next r w1 e) in
    (w', v', rw (ran, rest, same) refl)
