-- ===== src/Bench/Examples.antt =====
-- bench.c at concrete inputs: tests, and the theorems at inputs that meet their hypotheses.
use amp_project.Base.{
  ℕ, ◌^◌, ◌<◌, ◌≡◌, refl, Bool, true, false, Option, none, some, List, [], ◌∷◌, arith,
}
use amp_project.Bench.{Pass, run_passes, new_tally, enq_batch, deq_batch}
use amp_project.Bench.Counts.{
  Batched, IsLogged, run_passes-IsLogged, enq_batch-Batched, Dequeued, deq_batch-Dequeued,
}

abbrev calls : List (Bool × ℕ)
calls = (true, 3) ∷ (false, 5) ∷ (true, 2) ∷ []

-- Thread 1 of 4 enqueues 1 and 5.
two_values : (enq_batch 4 1 2 0 calls new_tally).0.sent ≡ 1 ∷ 5 ∷ []
unfolding enq_batch
two_values = refl

enq_batch-Batched_example : Batched 4 1 2 0 calls new_tally (enq_batch 4 1 2 0 calls new_tally)
enq_batch-Batched_example = enq_batch-Batched 4 1 2 0 calls new_tally refl (omega arith)

abbrev answers : List (Option ℕ × ℕ)
answers = (some 5, 1) ∷ (none, 1) ∷ []

deq_batch-Dequeued_example : Dequeued 0 answers new_tally (deq_batch 3 0 answers new_tally)
deq_batch-Dequeued_example = deq_batch-Dequeued 3 0 answers new_tally (omega arith)

abbrev passes : List Pass
passes =
    record { enq_batch_size = 2; enq_calls = calls; deq_batch_size = 3; deq_calls = answers }
    ∷ record { enq_batch_size = 1; enq_calls = (true, 4) ∷ []; deq_batch_size = 0; deq_calls = [] }
    ∷ []

-- Two passes of thread 1 of 4 enqueue 1, 5 and 9.
three_values : (run_passes 4 1 passes new_tally).sent ≡ 1 ∷ 5 ∷ 9 ∷ []
unfolding run_passes
three_values = refl

run_passes-IsLogged_example :
    IsLogged 4 1 (run_passes 4 1 passes new_tally)
    × ((run_passes 4 1 passes new_tally).dequeue_sum < 2 ^ 64)
run_passes-IsLogged_example = run_passes-IsLogged 4 1 passes new_tally refl (omega arith)
