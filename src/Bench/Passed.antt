-- ===== src/Bench/Passed.antt =====
-- The check of bench.c passes on every log that a FIFO queue allows.
use amp_project.Base.{
  ℕ, zero, suc, ◌+◌, ◌*◌, ◌%◌, ◌^◌, ◌≤◌, ◌<◌, ◌≡◌, refl, sym, ◌∙◌, ap, true, none, some, List, [],
  ◌∷◌, ◌==◌, arith, length, map, ==_refl,
}
use amp_project.Heap.{Ptr, Value}
use amp_project.Threads.{Event, replay}
use amp_project.Sequential.Memory.{World}
use amp_project.Sequential.Shape.{Pool, repool, IsQueue, Yields, yields, bind, weaken}
use amp_project.Sequential.Operations.{deq-empty, deq-uncons}
use amp_project.Sequential.Destroy.{Destroyed, nodes, destroy_queue-Destroyed}
use amp_project.Bench.{Tally, widen, expect_all}
use amp_project.Bench.Counts.{IsLogged}
use amp_project.Bench.Values.{sum_widened, sent_sum, AllFit, expect_all-sum}
use amp_project.Bench.Balance.{
  added_by, removed_by, added, puts_by, AreBelow, added_by-puts, replay-balance, across,
  across-added, across-removed,
}
use amp_project.Bench.Check.{total_of, drain, passed, check_correctness, finish_benchmark}

-- The queue is empty, and no free list has grown by more than `k` nodes.
pub record Emptied (w : World) (pool : Pool) (k : ℕ) (w' : World) : Type 0 where
  pub pool_after : Pool
  pub is : IsQueue w' pool_after []
  pub threads : w'.queue.num_threads ≡ w.queue.num_threads
  pub grown : (t : ℕ) → length (pool_after t) ≤ length (pool t) + k

Emptied-suc :
    {w w1 w2 : World} {pool : Pool} {k : ℕ} (p : Ptr) (u : Value)
    → w1.queue.num_threads ≡ w.queue.num_threads
    → Emptied w1 (repool pool 0 ((p, u) ∷ pool 0)) k w2
    → Emptied w pool (suc k) w2
unfolding repool
Emptied-suc {pool} p u same e = record {
  pool_after = e.pool_after;
  is = e.is;
  threads = e.threads ∙ same;
  grown = λ t. ground (arith, e.grown t);
}

-- With more fuel than values, the loop ends with an empty queue; it has added up what the queue held.
pub drain-Emptied :
    (xs : List Value) (fuel total : ℕ) {w : World} {pool : Pool}
    → IsQueue w pool xs
    → 0 < w.queue.num_threads
    → length xs < fuel
    → total < 2 ^ 64
    → Yields
        (λ out w'. (out ≡ (total + sum_widened xs) % 2 ^ 64) × Emptied w pool (length xs) w')
        (drain fuel total w)
unfolding drain
drain-Emptied xs zero total is some_thread enough small = absurd (omega arith)
drain-Emptied [] (suc k) total {w} {pool} is some_thread enough small = rw (deq-empty none 0 is) (
    yields (
      omega arith,
      record { pool_after = pool; is = is; threads = refl; grown = λ t. omega arith },
    ))
drain-Emptied (x ∷ xs) (suc k) total {w} {pool} is some_thread enough small =
    bind (deq-uncons none 0 is some_thread) λ out w1 (got, same, (u, is1)). rw got (
      weaken
        (drain-Emptied xs k ((total + widen x) % 2 ^ 64) is1 (rw same some_thread) (omega arith)
          (omega arith))
        λ sum w2 (is_sum, e). (omega (arith, is_sum), Emptied-suc w.queue.head u same e))

-- The counters of thread `tid` tell what the log has of it, and its values fit an `int`.
pub record Tells (n tid : ℕ) (log : List Event) (t : Tally) : Type 0 where
  pub logged : IsLogged n tid t
  pub sent : t.sent ≡ puts_by tid log
  pub dequeued : t.dequeue_sum ≡ removed_by tid log % 2 ^ 64
  pub fits : t.enq_count * n + tid < 2 ^ 31

-- So for the threads from `tid` on.
abbrev pub AllTell : (n tid : ℕ) → List Event → List Tally → Type 0
AllTell n tid log [] = Unit {0}
AllTell n tid log (t ∷ ts) = Tells n tid log t × AllTell n (tid + 1) log ts

total_of-removed :
    (n tid : ℕ) (log : List Event) (ts : List Tally) (start : ℕ)
    → AllTell n tid log ts
    → start < 2 ^ 64
    → total_of (map (λ t. t.dequeue_sum) ts) start
      ≡ (start + across (λ u. removed_by u log) tid (length ts)) % 2 ^ 64
unfolding total_of
total_of-removed n tid log [] start tell small = omega arith
total_of-removed n tid log (t ∷ ts) start (one, tell) small =
    total_of-removed n (tid + 1) log ts _ tell (omega arith) ∙ omega (arith, one.dequeued)

sent_sum-added :
    (n tid : ℕ) (log : List Event) (ts : List Tally)
    → AllTell n tid log ts
    → sent_sum n tid (map (λ t. t.enq_count) ts) ≡ across (λ u. added_by u log) tid (length ts)
sent_sum-added n tid log [] tell = refl
sent_sum-added n tid log (t ∷ ts) (one, tell) = omega (
  arith,
  ap sum_widened (sym one.logged ∙ one.sent),
  added_by-puts tid log,
  sent_sum-added n (tid + 1) log ts tell,
)

fit_of :
    (n tid : ℕ) (log : List Event) (ts : List Tally)
    → AllTell n tid log ts
    → AllFit n tid (map (λ t. t.enq_count) ts)
fit_of n tid log [] tell = tt
fit_of n tid log (t ∷ ts) (one, tell) = (one.fits, fit_of n (tid + 1) log ts tell)

module _ {n : ℕ} (log : List Event) (ts : List Tally) {xs : List Value} {w : World} {pool : Pool}
    (fifo : replay log ≡ some xs) (is : IsQueue w pool xs) (below : AreBelow n log)
    (tell : AllTell n 0 log ts) (all : length ts ≡ n) (threads : w.queue.num_threads ≡ n)
    (some_thread : 0 < n) where
  expected_added : expect_all n 0 (map (λ t. t.enq_count) ts) 0 ≡ added log % 2 ^ 64
  expected_added = omega (
    arith,
    expect_all-sum n 0 (map (λ t. t.enq_count) ts) 0 (fit_of n 0 log ts tell) (omega arith),
    sent_sum-added n 0 log ts tell,
    ap (across (λ u. added_by u log) 0) all,
    across-added n log below,
  )

  -- Dequeued and left is what the check expects.
  sums_agree :
      (total_of (map (λ t. t.dequeue_sum) ts) 0 + sum_widened xs) % 2 ^ 64
      ≡ expect_all n 0 (map (λ t. t.enq_count) ts) 0
  sums_agree = omega (
    arith,
    total_of-removed n 0 log ts 0 tell (omega arith),
    ap (across (λ u. removed_by u log) 0) all,
    across-removed n log below,
    replay-balance log xs fifo,
    expected_added,
  )

  total_small : total_of (map (λ t. t.dequeue_sum) ts) 0 < 2 ^ 64
  total_small = omega (arith, total_of-removed n 0 log ts 0 tell (omega arith))

  pub check_correctness-passed :
      (fuel : ℕ)
      → length xs < fuel
      → Yields
          (λ v w'.
            (v ≡ passed (expect_all n 0 (map (λ t. t.enq_count) ts) 0))
            × Emptied w pool (length xs) w')
          (check_correctness fuel n ts w)
  unfolding check_correctness
  check_correctness-passed fuel enough =
      bind
        (drain-Emptied xs fuel (total_of (map (λ t. t.dequeue_sum) ts) 0) is
          (omega (arith, threads)) enough total_small)
        λ total w' (is_total, e).
          let same : (total == expect_all n 0 (map (λ t. t.enq_count) ts) 0) ≡ true =
            rw (is_total ∙ sums_agree) (==_refl _) in
          rw same (yields (refl, e))

  -- The log ends, by `replay`, with the values that the queue holds in memory; every event is of one
  -- of the `n` threads, at least one; the counters of each tell the values it enqueued and the sum
  -- of what it dequeued, and its values fit an `int`. With fuel of at least 2, and more than the
  -- values of the queue and the nodes of any free list together, the end of `run_benchmark` returns
  -- without a fault: the check passes, at the sum modulo 2 ^ 64 of all values enqueued, and from the
  -- emptied queue `destroy_queue` frees every node.
  pub finish_benchmark-passed :
      (fuel : ℕ)
      → 2 ≤ fuel
      → ((t : ℕ) → length (pool t) + length xs < fuel)
      → Yields
          (λ v w'.
            (v ≡ passed (added log % 2 ^ 64))
            × ((w1 : World) × (e : Emptied w pool (length xs) w1) × Destroyed w1
                  (nodes e.is)
                  e.pool_after
                  w'))
          (finish_benchmark fuel n ts w)
  unfolding finish_benchmark
  finish_benchmark-passed fuel two enough =
      bind (check_correctness-passed fuel (omega (arith, enough 0))) λ v w1 (is_v, e).
        bind (destroy_queue-Destroyed e.is fuel two λ t. omega (arith, e.grown t, enough t))
          λ _ w2 d. yields (is_v ∙ ap passed expected_added, (w1, e, d))
