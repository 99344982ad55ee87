-- ===== src/LockFree/Release.antt =====
-- The end of the wait of mm_op_end (Ex5.c), when the other threads have left their operations.
use amp_project.Base.{
  ℕ, zero, suc, ◌+◌, ◌≤◌, ◌<◌, ◌≡◌, ◌≢◌, refl, ◌∙◌, ap, true, false, ◌==◌, arith, ℕ_discrete,
}
use amp_project.Threads.{Outcome, moved, update, update_self, update_twice}
use amp_project.LockFree.{
  Counts, Result, Pc, end_scan, end_reclaim, State, Env, is_odd, access, manage, step_at, step,
}
use amp_project.LockFree.Indices.{scanned, scan-le}

-- `steps` steps of thread `t` alone
abbrev pub continue : (Env → State → Outcome State) → Env → Outcome State → Outcome State
continue f e (moved s) = f e s
continue f e o = o

pub alone : (steps t : ℕ) → Env → State → Outcome State
alone zero t e s = moved s
alone (suc k) t e s = continue (alone k t) e (step e t s)

-- The state with thread `t` at `pc`, and all else as it was.
abbrev pub placed : ℕ → Pc → State → State
placed t pc s = record s { threads = update s.threads t pc }

module _ (e : Env) (t : ℕ) (k : Counts) (r : Result) (s : State)
    (quiet : (u : ℕ) → u ≢ t → u < s.world.queue.num_threads → is_odd (s.ctr u) ≡ false) where
  scan-pass :
      (i : ℕ)
      → i < s.world.queue.num_threads
      → scanned t s.world.queue.num_threads s.ctr k r i ≡ end_scan k r (i + 1)
  scan-pass i lt =
      let inside : (i == s.world.queue.num_threads) ≡ false = ground arith in
      elim (ℕ_discrete i t) [
        | yes same ↦ let own : (i == t) ≡ true = ground arith in rw (inside, own) refl
        | no other ↦
            let pass : is_odd (s.ctr i) ≡ false = quiet i other lt in
            let not_own : (i == t) ≡ false = ground arith in rw (inside, not_own, pass) refl
      ]

  scan-end :
      scanned t s.world.queue.num_threads s.ctr k r s.world.queue.num_threads ≡ end_reclaim k r
  scan-end =
      let last : (s.world.queue.num_threads == s.world.queue.num_threads) ≡ true = ground arith in
      rw last refl

placed_twice : (t : ℕ) (p q : Pc) (s : State) → placed t q (placed t p s) ≡ placed t q s
placed_twice t p q s = ap (λ f. record s { threads = f }) (update_twice s.threads t p q)

scan-step :
    (e : Env) (t : ℕ) (k : Counts) (r : Result) (i : ℕ) (s : State)
    → s.threads t ≡ end_scan k r i
    → i ≤ s.world.queue.num_threads
    → step e t s ≡ moved (placed t (scanned t s.world.queue.num_threads s.ctr k r i) s)
unfolding step step_at access manage
scan-step e t k r i s here le = rw here (scan-le t k r i s le)

rounds :
    (e : Env) (t : ℕ) (k : Counts) (r : Result) (m i : ℕ) (s : State)
    → ((u : ℕ) → u ≢ t → u < s.world.queue.num_threads → is_odd (s.ctr u) ≡ false)
    → i + m ≡ s.world.queue.num_threads
    → s.threads t ≡ end_scan k r i
    → alone (suc m) t e s ≡ moved (placed t (end_reclaim k r) s)
unfolding alone
rounds e t k r zero i s quiet count here =
    let last : i ≡ s.world.queue.num_threads = omega arith in
    rw (scan-step e t k r i s here (omega arith), last, scan-end e t k r s quiet) refl
rounds e t k r (suc m) i s quiet count here =
    let s' : State = placed t (end_scan k r (i + 1)) s in
    let rest : alone (suc m) t e s' ≡ moved (placed t (end_reclaim k r) s') =
      rounds e t k r m (i + 1) s' quiet (omega arith)
        (update_self s.threads t (end_scan k r (i + 1))) in
    rw (scan-step e t k r i s here (omega arith), scan-pass e t k r s quiet i (omega arith))
      (rest ∙ ap moved (placed_twice t (end_scan k r (i + 1)) (end_reclaim k r) s))

-- When no other thread is in an operation, a thread that begins to wait for the others goes on to
-- give its retired nodes back after num_threads + 1 steps of its own, with nothing else changed.
pub wait_ends :
    (e : Env) (t : ℕ) {k : Counts} {r : Result} (s : State)
    → ((u : ℕ) → u ≢ t → u < s.world.queue.num_threads → is_odd (s.ctr u) ≡ false)
    → s.threads t ≡ end_scan k r 0
    → alone (suc s.world.queue.num_threads) t e s ≡ moved (placed t (end_reclaim k r) s)
wait_ends e t {k} {r} s quiet here =
    rounds e t k r s.world.queue.num_threads 0 s quiet (omega arith) here
