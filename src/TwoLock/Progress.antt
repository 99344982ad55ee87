-- ===== src/TwoLock/Progress.antt =====
-- No thread of Ex4.c waits for ever on a lock that nobody can give back.
use amp_project.Base.{
  ℕ, ◌≡◌, ◌≢◌, refl, Bool, true, false, Bool-cases, List, ◌==◌, inl, inr, ◌⊎◌, arith,
}
use amp_project.Heap.{Alloc}
use amp_project.Sequential.Memory.{Exec, fault, starved, ok}
use amp_project.Threads.{
  OmpLock, raw, unlocked, locked_by, blocked, set_lock, unset_lock, Event, Guarded,
}
use amp_project.TwoLock.{
  Pc, outside, enq_start, enq_move, enq_unlock, enq_done, deq_start, deq_pop, deq_wait, deq_release,
  deq_unlock, deq_done, State, access, sync, step_at, step, busy, after,
}
use amp_project.TwoLock.Invariant.{in_enq, in_deq}
use amp_project.TwoLock.System.{Reach, Reach-Inv}

-- the places before `omp_set_lock`
abbrev wants_enq : Pc → Bool
wants_enq (enq_start v) = true
wants_enq (deq_wait c p v) = true
wants_enq _ = false

abbrev wants_deq : Pc → Bool
wants_deq (deq_start c) = true
wants_deq _ = false

after-ne-blocked : (t : ℕ) (s : State) (r : Exec Pc) → after t s r ≢ blocked
after-ne-blocked t s fault e = cc e
after-ne-blocked t s starved e = cc e
after-ne-blocked t s (ok pc w) e = cc e

unset_lock-ne-blocked : (t : ℕ) (l : OmpLock) (k : OmpLock → State) → unset_lock t l k ≢ blocked
unset_lock-ne-blocked t raw k = λ e. cc e
unset_lock-ne-blocked t unlocked k = λ e. cc e
unset_lock-ne-blocked t (locked_by u) k = elim (Bool-cases (u == t)) [
  | inl e ↦ rw e (λ h. cc h)
  | inr e ↦ rw e (λ h. cc h)
]

set_lock-ne-blocked :
    (t : ℕ) (l : OmpLock) (k : OmpLock → State) → l ≡ unlocked → set_lock t l k ≢ blocked
set_lock-ne-blocked t raw k free e = cc e
set_lock-ne-blocked t unlocked k free e = cc e
set_lock-ne-blocked t (locked_by u) k free e = cc free

-- Only a lock that is set keeps a thread in a call from its next step.
step_at-ne-blocked :
    (m : Alloc) (t : ℕ) (s : State) (pc : Pc)
    → busy pc ≡ true
    → (wants_enq pc ≡ true → s.enq_lock ≡ unlocked)
    → (wants_deq pc ≡ true → s.deq_lock ≡ unlocked)
    → step_at m t pc s ≢ blocked
unfolding step_at access sync
step_at-ne-blocked m t s outside b enq deq = cc b
step_at-ne-blocked m t s (enq_done r) b enq deq = cc b
step_at-ne-blocked m t s (deq_done c r) b enq deq = cc b
step_at-ne-blocked m t s (enq_start v) b enq deq = set_lock-ne-blocked t s.enq_lock _ (enq refl)
step_at-ne-blocked m t s (deq_start c) b enq deq = set_lock-ne-blocked t s.deq_lock _ (deq refl)
step_at-ne-blocked m t s (deq_wait c p v) b enq deq = set_lock-ne-blocked t s.enq_lock _ (enq refl)
step_at-ne-blocked m t s (enq_unlock r) b enq deq = unset_lock-ne-blocked t s.enq_lock _
step_at-ne-blocked m t s (deq_release c p v) b enq deq = unset_lock-ne-blocked t s.enq_lock _
step_at-ne-blocked m t s (deq_unlock c r) b enq deq = unset_lock-ne-blocked t s.deq_lock _
step_at-ne-blocked m t s (enq_move p) b enq deq = λ e. cc e
step_at-ne-blocked m t s (deq_pop c p q v) b enq deq = λ e. cc e
step_at-ne-blocked m t s _ b enq deq = after-ne-blocked t s _

in_enq-no-wait :
    (pc : Pc)
    → in_enq pc ≡ true
    → (busy pc ≡ true) × (wants_enq pc ≡ false) × (wants_deq pc ≡ false)
in_enq-no-wait outside e = cc e
in_enq-no-wait _ e = ground arith

in_deq-no-wait : (pc : Pc) → in_deq pc ≡ true → (busy pc ≡ true) × (wants_deq pc ≡ false)
in_deq-no-wait outside e = cc e
in_deq-no-wait _ e = ground arith

-- A lock is free, or a thread is between setting and unsetting it.
lock_cases :
    {inside : Pc → Bool} {threads : ℕ → Pc} (l : OmpLock)
    → Guarded inside l threads
    → (l ≡ unlocked) ⊎ ((u : ℕ) × (inside (threads u) ≡ true))
lock_cases raw g = absurd (g.usable refl)
lock_cases unlocked g = inl refl
lock_cases (locked_by u) g = inr (u, g.within u refl)

-- In every reachable state with a thread in a call, some thread in a call can take its next step,
-- whatever `malloc` gives.
pub some_thread_moves :
    {n : ℕ} {s : State} {log : List Event}
    → Reach n s log
    → (t : ℕ) → busy (s.threads t) ≡ true
    → (u : ℕ) × (busy (s.threads u) ≡ true) × ((m : Alloc) → step m u s ≢ blocked)
unfolding step
some_thread_moves {s} r t b =
    let (xs, log_is, inv) = Reach-Inv r in
    elim (lock_cases s.enq_lock inv.enq_guard) [
      | inr (u, i) ↦
          let (b', no_enq, no_deq) = in_enq-no-wait (s.threads u) i in
          (
            u,
            b',
            λ m.
                step_at-ne-blocked m u s (s.threads u) b' (λ e. cc (e, no_enq))
                  (λ e. cc (e, no_deq)),
          )
      | inl free ↦ elim (lock_cases s.deq_lock inv.deq_guard) [
        | inr (u, i) ↦
            let (b', no_deq) = in_deq-no-wait (s.threads u) i in
            (
              u,
              b',
              λ m. step_at-ne-blocked m u s (s.threads u) b' (λ _. free) (λ e. cc (e, no_deq)),
            )
        | inl free' ↦ (t, b, λ m. step_at-ne-blocked m t s (s.threads t) b (λ _. free) (λ _. free'))
      ]
    ]
