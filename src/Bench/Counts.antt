-- ===== src/Bench/Counts.antt =====
-- The counters after a batch.
use amp_project.Base.{
  ℕ, zero, suc, ◌+◌, ◌%◌, ◌^◌, ◌≤◌, ◌<◌, ◌≡◌, refl, sym, ◌∙◌, ap, Bool, true, false, Option, none,
  some, List, [], ◌∷◌, ◌++◌, ltb, if◌then◌else◌, arith, length, Bool-cases, inl, inr,
}
use amp_project.Bench.{
  Tally, Pass, run_passes, value_of, after_enq, enq_batch, after_deq, deq_batch, widen,
}

-- The values of rounds `i`, `i + 1`, … of a thread.
abbrev pub values_from : (n tid i k : ℕ) → List ℕ
values_from n tid i zero = []
values_from n tid i (suc k) = value_of n tid i ∷ values_from n tid (i + 1) k

values_from-concat :
    (n tid i k : ℕ)
    → values_from n tid i (suc k) ≡ values_from n tid i k ++ value_of n tid (i + k) ∷ []
values_from-concat n tid i zero = ap (λ j. value_of n tid j ∷ []) (omega arith)
values_from-concat n tid i (suc k) = ap (◌∷◌ (value_of n tid i)) (
    values_from-concat n tid (i + 1) k
    ∙ ap (λ j. values_from n tid (i + 1) k ++ value_of n tid j ∷ []) (omega arith))

abbrev pub successes : List (Bool × ℕ) → ℕ
successes [] = 0
successes ((true, size) ∷ cs) = suc (successes cs)
successes ((false, size) ∷ cs) = successes cs

-- The log of thread `tid` is what the checker will expect of it.
abbrev pub IsLogged : ℕ → ℕ → Tally → Type 0
IsLogged n tid t = t.sent ≡ values_from n tid 0 t.enq_count

-- What an enqueue batch from `i` on does to the counters.
pub record Batched (n tid size i : ℕ) (cs : List (Bool × ℕ)) (t : Tally) (out : Tally × ℕ)
    : Type 0 where
  pub logged : IsLogged n tid (out.0)
  pub added : (out.0).enq_count + i ≡ t.enq_count + out.1
  pub within : out.1 ≤ size
  pub finished : size ≤ i + successes cs → out.1 ≡ size
  pub peak : t.max_free_list_size ≤ (out.0).max_free_list_size
  pub dequeues : ((out.0).deq_count ≡ t.deq_count) × ((out.0).dequeue_sum ≡ t.dequeue_sum)

after_enq-IsLogged :
    (n tid : ℕ) (c : Bool × ℕ) (t : Tally) → IsLogged n tid t → IsLogged n tid (after_enq n tid c t)
unfolding after_enq
after_enq-IsLogged n tid (false, size) t log = log
after_enq-IsLogged n tid (true, size) t log =
    let from_zero : 0 + t.enq_count ≡ t.enq_count = omega arith in
    let next : suc t.enq_count ≡ t.enq_count + 1 = omega arith in
    ap (λ l. l ++ value_of n tid t.enq_count ∷ []) log
    ∙ ap (λ j. values_from n tid 0 t.enq_count ++ value_of n tid j ∷ []) (sym from_zero)
    ∙ sym (values_from-concat n tid 0 t.enq_count)
    ∙ ap (values_from n tid 0) next

-- What one call does to the other counters.
after_enq-counts :
    (n tid : ℕ) (c : Bool × ℕ) (t : Tally)
    → ((after_enq n tid c t).enq_count ≡ t.enq_count + (if c.0 then 1 else 0))
      × (t.max_free_list_size ≤ (after_enq n tid c t).max_free_list_size)
      × ((after_enq n tid c t).deq_count ≡ t.deq_count)
      × ((after_enq n tid c t).dequeue_sum ≡ t.dequeue_sum)
unfolding after_enq
after_enq-counts n tid c t = ground arith

-- An enqueue batch enqueues the thread's next values in order, each once, and ends when `size` calls
-- have succeeded.
pub enq_batch-Batched :
    (n tid size i : ℕ) (cs : List (Bool × ℕ)) (t : Tally)
    → IsLogged n tid t
    → i ≤ size
    → Batched n tid size i cs t (enq_batch n tid size i cs t)
unfolding enq_batch
enq_batch-Batched n tid size i [] t log le = record {
  logged = log;
  added = refl;
  within = le;
  finished = λ enough. omega arith;
  peak = omega arith;
  dequeues = (refl, refl);
}
enq_batch-Batched n tid size i ((b, s) ∷ cs) t log le = elim (Bool-cases (ltb i size)) [
  | inr done ↦ rw done (record {
    logged = log;
    added = refl;
    within = le;
    finished = λ enough. ground arith;
    peak = omega arith;
    dequeues = (refl, refl);
  })
  | inl more ↦
      let t' = after_enq n tid (b, s) t in
      let d = after_enq-counts n tid (b, s) t in
      let r =
        enq_batch-Batched n tid size (if b then i + 1 else i) cs t'
          (after_enq-IsLogged n tid (b, s) t log) (ground arith) in
      rw more (record {
        logged = r.logged;
        added = ground (arith, r.added, d.0);
        within = r.within;
        finished = λ enough. ground (arith, r.finished);
        peak = omega (arith, r.peak, d.1);
        dequeues = (r.dequeues.0 ∙ d.2, r.dequeues.1 ∙ d.3);
      })
]

-- The values that the calls of a dequeue batch give, widened and summed.
abbrev pub got : List (Option ℕ × ℕ) → ℕ
got [] = 0
got ((none, size) ∷ cs) = got cs
got ((some v, size) ∷ cs) = widen v + got cs

-- How many of the calls give a value, and how many find nothing.
abbrev pub hits : List (Option ℕ × ℕ) → ℕ
hits [] = 0
hits ((none, size) ∷ cs) = hits cs
hits ((some v, size) ∷ cs) = suc (hits cs)

abbrev pub misses : List (Option ℕ × ℕ) → ℕ
misses [] = 0
misses ((none, size) ∷ cs) = suc (misses cs)
misses ((some v, size) ∷ cs) = misses cs

-- What a dequeue batch from `i` on does to the counters, if it makes all the calls `cs`.
pub record Dequeued (i : ℕ) (cs : List (Option ℕ × ℕ)) (t : Tally) (out : Tally × ℕ) : Type 0 where
  pub calls : out.1 ≡ i + length cs
  pub succeeded : (out.0).deq_count ≡ t.deq_count + hits cs
  pub missed : (out.0).failed_deq_count ≡ t.failed_deq_count + misses cs
  pub total : t.dequeue_sum < 2 ^ 64 → (out.0).dequeue_sum ≡ (t.dequeue_sum + got cs) % 2 ^ 64
  pub peak : t.max_free_list_size ≤ (out.0).max_free_list_size
  pub enqueues :
      ((out.0).sent ≡ t.sent)
      × ((out.0).enq_count ≡ t.enq_count)
      × ((out.0).failed_enq_count ≡ t.failed_enq_count)

-- A dequeue batch with no more answers than calls makes a call for each: `deq_count` grows by those
-- that gave a value, `failed_deq_count` by those that found nothing, and the sum, if it fitted 64
-- bits, by the values that came out, widened, modulo 2 ^ 64. The peak does not fall, and what belongs
-- to enqueues stays.
pub deq_batch-Dequeued :
    (size i : ℕ) (cs : List (Option ℕ × ℕ)) (t : Tally)
    → i + length cs ≤ size
    → Dequeued i cs t (deq_batch size i cs t)
unfolding deq_batch after_deq
deq_batch-Dequeued size i [] t le = record {
  calls = omega arith;
  succeeded = omega arith;
  missed = omega arith;
  total = λ small. omega arith;
  peak = omega arith;
  enqueues = (refl, refl, refl);
}
deq_batch-Dequeued size i ((none, s) ∷ cs) t le =
    let more : ltb i size ≡ true = ground arith in
    let r = deq_batch-Dequeued size (i + 1) cs (after_deq (none, s) t) (omega arith) in
    rw more (record {
      calls = omega (arith, r.calls);
      succeeded = r.succeeded;
      missed = omega (arith, r.missed);
      total = r.total;
      peak = ground (arith, r.peak);
      enqueues = r.enqueues;
    })
deq_batch-Dequeued size i ((some v, s) ∷ cs) t le =
    let more : ltb i size ≡ true = ground arith in
    let r = deq_batch-Dequeued size (i + 1) cs (after_deq (some v, s) t) (omega arith) in
    rw more (record {
      calls = omega (arith, r.calls);
      succeeded = omega (arith, r.succeeded);
      missed = r.missed;
      total = λ small. omega (arith, r.total (omega arith));
      peak = ground (arith, r.peak);
      enqueues = r.enqueues;
    })

after_deq-keeps :
    (c : Option ℕ × ℕ) (t : Tally)
    → ((after_deq c t).sent ≡ t.sent)
      × ((after_deq c t).enq_count ≡ t.enq_count)
      × (t.dequeue_sum < 2 ^ 64 → (after_deq c t).dequeue_sum < 2 ^ 64)
unfolding after_deq
after_deq-keeps (none, s) t = (refl, refl, λ small. small)
after_deq-keeps (some v, s) t = (refl, refl, λ small. omega arith)

-- A dequeue batch changes neither the log nor the number of values enqueued, and leaves a sum that
-- fits 64 bits.
deq_batch-keeps :
    (size i : ℕ) (cs : List (Option ℕ × ℕ)) (t : Tally)
    → ((deq_batch size i cs t).0.sent ≡ t.sent)
      × ((deq_batch size i cs t).0.enq_count ≡ t.enq_count)
      × (t.dequeue_sum < 2 ^ 64 → (deq_batch size i cs t).0.dequeue_sum < 2 ^ 64)
unfolding deq_batch
deq_batch-keeps size i [] t = (refl, refl, λ small. small)
deq_batch-keeps size i (c ∷ cs) t =
    let (sent, count, sum) = after_deq-keeps c t in
    let (sent', count', sum') = deq_batch-keeps size (i + 1) cs (after_deq c t) in
    elim (Bool-cases (ltb i size)) [
      | inr done ↦ rw done (refl, refl, λ small. small)
      | inl more ↦ rw more (sent' ∙ sent, count' ∙ count, λ small. sum' (sum small))
    ]

-- From counters whose log is the thread's values of rounds 0, 1, … in order, as many as `enq_count`
-- says, and whose sum fits 64 bits, the same holds after any passes, whatever their sizes and
-- whatever `enq` and `deq` give.
pub run_passes-IsLogged :
    (n tid : ℕ) (ps : List Pass) (t : Tally)
    → IsLogged n tid t
    → t.dequeue_sum < 2 ^ 64
    → IsLogged n tid (run_passes n tid ps t) × ((run_passes n tid ps t).dequeue_sum < 2 ^ 64)
unfolding run_passes
run_passes-IsLogged n tid [] t log small = (log, small)
run_passes-IsLogged n tid (p ∷ ps) t log small =
    let e = enq_batch-Batched n tid p.enq_batch_size 0 p.enq_calls t log (omega arith) in
    let t' = (enq_batch n tid p.enq_batch_size 0 p.enq_calls t).0 in
    let (sent, count, sum) = deq_batch-keeps p.deq_batch_size 0 p.deq_calls t' in
    run_passes-IsLogged n tid ps _ (sent ∙ e.logged ∙ ap (values_from n tid 0) (sym count))
      (sum (omega (arith, e.dequeues.1)))
