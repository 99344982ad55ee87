-- ===== src/Bench/Check.antt =====
-- project_skeleton/src/bench.c: what `run_benchmark` does behind its parallel region, with
-- CHECK_CORRECTNESS and the queue of Ex1.c: the threads' sums are added up, the queue is emptied, the
-- two sums are compared, and the queue is destroyed.
use amp_project.Base.{
  ℕ, zero, suc, ◌+◌, ◌%◌, ◌^◌, none, some, List, [], ◌∷◌, ◌==◌, if◌then◌else◌, map,
}
use amp_project.Sequential
use amp_project.Sequential.Memory.{Cmd, starved, give, ◌>>=◌, ◌>>◌}
use amp_project.Bench.{Tally, widen, expect_all}

-- `total_dequeue_sum += dequeue_sum` for each thread; they are taken in the order of their numbers.
unfoldable pub total_of : (dequeue_sums : List ℕ) → (total_dequeue_sum : ℕ) → ℕ
total_of [] total = total
total_of (s ∷ ss) total = total_of ss ((total + s) % 2 ^ 64)

-- `for (;;)`, on fuel: thread 0 takes values until `deq` fails.
unfoldable pub drain : (fuel : ℕ) → (total_dequeue_sum : ℕ) → Cmd ℕ
unfolding widen
drain zero total = λ _. starved
drain (suc k) total = Sequential.deq 0 none >>= λ answer. elim answer.0 [
  | none ↦ give total
  | some dv ↦ drain k ((total + widen dv) % 2 ^ 64)
]

-- What the check prints.
pub data Verdict : Type 0 where
  failed : (expected_sum total_dequeue_sum : ℕ) → Verdict
  passed : (expected_sum : ℕ) → Verdict

-- The check, with the counters of the threads.
unfoldable pub check_correctness : (fuel num_threads : ℕ) → List Tally → Cmd Verdict
unfolding drain total_of expect_all
check_correctness fuel n ts =
    let expected_sum = expect_all n 0 (map (λ t. t.enq_count) ts) 0 in
    drain fuel (total_of (map (λ t. t.dequeue_sum) ts) 0) >>= λ total.
    give (if total == expected_sum then passed expected_sum else failed expected_sum total)

-- The check, then `destroy_queue`.
unfoldable pub finish_benchmark : (fuel num_threads : ℕ) → List Tally → Cmd Verdict
unfolding check_correctness
finish_benchmark fuel n ts =
    check_correctness fuel n ts >>= λ verdict. Sequential.destroy_queue fuel >> give verdict
