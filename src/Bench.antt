-- ===== src/Bench.antt =====
-- project_skeleton/src/bench.c: the batches that a thread of `run_benchmark` runs, its counters, and
-- the check of the sums. What each call of `enq` and `deq` gives back is an argument, one entry for
-- each call.
pub mod Values
pub mod Counts
pub mod Check
pub mod Balance
pub mod Passed
mod Examples
mod PassedExample
use amp_project.Base.{
  ℕ, zero, suc, ◌+◌, ◌*◌, ◌%◌, ◌^◌, Bool, true, false, Option, none, some, List, [], ◌∷◌, ◌++◌, ◌-◌,
  ltb, if◌then◌else◌,
}

-- The counters of a thread, the `int`s as numbers; those that only `enq` and `deq` change are left
-- out. `sent` is the log of the values whose `enq` succeeded; the program keeps
-- no such list.
pub record Tally : Type 0 where
  pub enq_count : ℕ
  pub deq_count : ℕ
  pub failed_enq_count : ℕ
  pub failed_deq_count : ℕ
  pub max_free_list_size : ℕ
  pub dequeue_sum : ℕ
  pub sent : List ℕ

abbrev pub new_tally : Tally
new_tally = record {
  enq_count = 0;
  deq_count = 0;
  failed_enq_count = 0;
  failed_deq_count = 0;
  max_free_list_size = 0;
  dequeue_sum = 0;
  sent = [];
}

-- `enq_count * num_threads + tid`, as the bit pattern of an `int`. Where it does not fit, C leaves the
-- overflow undefined, and this wraps.
pub value_of : (num_threads tid enq_count : ℕ) → ℕ
value_of num_threads tid enq_count = (enq_count * num_threads + tid) % 2 ^ 32

-- `(uint64_t)value`, which extends the sign of an `int`
pub widen : ℕ → ℕ
widen value = if ltb value (2 ^ 31) then value else value + (2 ^ 64 - 2 ^ 32)

abbrev pub larger : ℕ → ℕ → ℕ
larger size so_far = if ltb so_far size then size else so_far

-- One pass of the enqueue loop: whether `enq` succeeded, and the size of the thread's free list then.
pub after_enq : (num_threads tid : ℕ) → Bool × ℕ → Tally → Tally
unfolding value_of
after_enq n tid (success, size) t =
    if success
    then record t {
      max_free_list_size = larger size t.max_free_list_size;
      enq_count = t.enq_count + 1;
      sent = t.sent ++ value_of n tid t.enq_count ∷ [];
    }
    else record t {
      max_free_list_size = larger size t.max_free_list_size;
      failed_enq_count = t.failed_enq_count + 1;
    }

-- `for (int i = 0; i < enq_batch_size; ) { … i += success; }`, as far as the calls go: the counters
-- and `i`.
pub enq_batch : (num_threads tid enq_batch_size i : ℕ) → List (Bool × ℕ) → Tally → Tally × ℕ
unfolding after_enq
enq_batch n tid enq_batch_size i [] t = (t, i)
enq_batch n tid enq_batch_size i (c ∷ cs) t =
    let rest = enq_batch n tid enq_batch_size (if c.0 then i + 1 else i) cs (after_enq n tid c t) in
    if ltb i enq_batch_size then rest else (t, i)

-- One pass of the dequeue loop: the value that `deq` gave, if it succeeded.
pub after_deq : Option ℕ × ℕ → Tally → Tally
unfolding widen
after_deq (none, size) t = record t {
  max_free_list_size = larger size t.max_free_list_size;
  failed_deq_count = t.failed_deq_count + 1;
}
after_deq (some v, size) t = record t {
  max_free_list_size = larger size t.max_free_list_size;
  deq_count = t.deq_count + 1;
  dequeue_sum = (t.dequeue_sum + widen v) % 2 ^ 64;
}

-- `for (int i = 0; i < deq_batch_size; i++)`, likewise.
pub deq_batch : (deq_batch_size i : ℕ) → List (Option ℕ × ℕ) → Tally → Tally × ℕ
unfolding after_deq
deq_batch deq_batch_size i [] t = (t, i)
deq_batch deq_batch_size i (c ∷ cs) t =
    let rest = deq_batch deq_batch_size (i + 1) cs (after_deq c t) in
    if ltb i deq_batch_size then rest else (t, i)

-- One pass of `while (omp_get_wtime() < end_time)`: the two sampled sizes, and what the calls give.
pub record Pass : Type 0 where
  pub enq_batch_size : ℕ
  pub enq_calls : List (Bool × ℕ)
  pub deq_batch_size : ℕ
  pub deq_calls : List (Option ℕ × ℕ)

-- The passes of a thread, as many as the clock allows.
unfoldable pub run_passes : (num_threads tid : ℕ) → List Pass → Tally → Tally
unfolding enq_batch deq_batch
run_passes n tid [] t = t
run_passes n tid (p ∷ ps) t =
    let (enqueued, _) = enq_batch n tid p.enq_batch_size 0 p.enq_calls t in
    let (dequeued, _) = deq_batch p.deq_batch_size 0 p.deq_calls enqueued in
    run_passes n tid ps dequeued

-- The inner loop of the check: `for (int i = 0; i < enq_count; i++)`, with the rounds left.
pub expect_thread : (num_threads tid rounds i expected_sum : ℕ) → ℕ
expect_thread n tid zero i expected_sum = expected_sum
expect_thread n tid (suc k) i expected_sum =
    expect_thread n tid k (i + 1) ((expected_sum + (i * n + tid)) % 2 ^ 64)

-- The outer loop, over the threads' counts of successful calls.
pub expect_all : (num_threads tid : ℕ) → (enq_operations : List ℕ) → (expected_sum : ℕ) → ℕ
unfolding expect_thread
expect_all n tid [] expected_sum = expected_sum
expect_all n tid (count ∷ counts) expected_sum =
    expect_all n (tid + 1) counts (expect_thread n tid count 0 expected_sum)
